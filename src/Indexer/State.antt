-- ===== src/Indexer/State.antt =====
-- The indexer's rows and stores (backend/src/indexer/entities/).
use stow.Prelude.{ℕ, ◌≡◌, ◌&&◌, Option, some, List, ◌==◌, All, if◌then◌else◌}
use stow.Prelude.Table.{Table}
use stow.Amounts.{Amount}
use stow.Events.{Topic, EventData}
use stow.Projection.State.{Stores, Db}

pub data EventStatus : Type 0 where
  pending processed failed dlq : EventStatus

-- A stored event (contract-event.entity.ts), without its primary key, its creation time and the
-- two columns that no code writes.
pub record ContractEvent : Type 0 where
  pub ledger : ℕ
  pub log_index : ℕ
  pub event_type : Topic
  pub contents : EventData
  pub tx_hash : Option ℕ
  pub status : EventStatus
  pub retry_count : ℕ

-- An event as `SorobanService.getEvents` returns it, and its answer.
pub record RpcEvent : Type 0 where
  pub ledger : ℕ
  pub topic : List Topic
  pub value : EventData
  pub tx_hash : Option ℕ

pub record RpcPage : Type 0 where
  pub events : List RpcEvent
  pub latest_ledger : Option ℕ

pub record Checkpoint : Type 0 where
  pub key : ℕ
  pub value : ℕ

abbrev pub key_of : Checkpoint → ℕ
key_of r = r.key

pub data WithdrawalStatus : Type 0 where
  pending claimed cancelled : WithdrawalStatus

-- pending-withdrawal.entity.ts
pub record PendingWithdrawal : Type 0 where
  pub request_id : ℕ
  pub owner : ℕ
  pub shares : Amount
  pub claimable_at : ℕ
  pub status : WithdrawalStatus
  pub cancelled_at : Option ℕ

abbrev pub request_of : PendingWithdrawal → ℕ
request_of w = w.request_id

-- harvest-history.entity.ts
pub record Harvest : Type 0 where
  pub delta : Amount
  pub fee : Amount
  pub harvested_at : ℕ
  pub ledger : ℕ
  pub tx_hash : Option ℕ

-- The repository of stored events. The code finds rows by `(ledger, log_index)`, and saves a row
-- that it has created after finding none there, or one that it has loaded. `find_pending` is the
-- query of `processPendingBatch`: rows with status 'pending', by ledger, a hundred at most.
pub record EventTable : Type 1 where
  pub Store : Type 0
  pub find_at : ℕ → ℕ → Store → Option ContractEvent
  pub save : ContractEvent → Store → Store
  pub find_pending : Store → List ContractEvent
  pub find_at-save :
      (l i : ℕ) (e : ContractEvent) (s : Store)
      → find_at l i (save e s)
        ≡ (if l == e.ledger && i == e.log_index then some e else find_at l i s)
  pub find_pending-pending :
      (s : Store) → All (λ e. e.status ≡ EventStatus.pending) (find_pending s)
  pub find_pending-find_at :
      (s : Store) → All (λ e. find_at e.ledger e.log_index s ≡ some e) (find_pending s)

pub record IndexerStores : Type 1 where
  pub events : EventTable
  pub checkpoints : Table Checkpoint key_of
  pub withdrawals : Table PendingWithdrawal request_of
  pub projections : Stores

pub record Indexer (t : IndexerStores) : Type 0 where
  pub events : t.events.Store
  pub checkpoints : t.checkpoints.Store
  pub withdrawals : t.withdrawals.Store
  -- the latest first
  pub harvests : List Harvest
  pub projections : Db t.projections
  -- the keys of the in-memory map `pendingWithdrawals`
  pub registered : List ℕ
  pub events_processed : ℕ
  pub deposits_processed : ℕ
  pub withdrawals_processed : ℕ
