-- ===== src/Reconciliation/State.antt =====
-- The rows, the stores and the answers of the RPC that the reconciliation works with
-- (backend/src/indexer/entities/).
use stow.Prelude.{ℕ, ◌≡◌, Bool, Option, none, some, List, ltb, if◌then◌else◌}
use stow.Prelude.Table.{Table}
use stow.Events.{Topic, EventData}
use stow.Indexer.State.{EventTable, IndexerStores, Indexer}

-- chain-sync-checkpoint.entity.ts, without the times of creation and update; a hash is a text.
pub record ChainSyncCheckpoint : Type 0 where
  pub contract_id : ℕ
  pub last_indexed_ledger : ℕ
  pub last_indexed_ledger_hash : Option ℕ
  pub chain_head_ledger : ℕ
  pub last_reconciled_from : ℕ
  pub last_reconciled_to : ℕ
  pub last_reconciled_at : Option ℕ
  pub last_backfill_count : ℕ

abbrev pub contract_of : ChainSyncCheckpoint → ℕ
contract_of c = c.contract_id

-- reorg-event.entity.ts, without the primary key
pub record ReorgEvent : Type 0 where
  pub contract_id : ℕ
  pub fork_ledger : ℕ
  pub previous_ledger : ℕ
  pub previous_hash : ℕ
  pub new_hash : ℕ
  pub rolled_back_event_count : ℕ
  pub detected_at : ℕ

-- The deletion of the stored events beyond a ledger, `delete({ ledger: MoreThan(n) })`, and the
-- count of rows that the database reports, if it does.
pub record EventDeletion (e : EventTable) : Type 1 where
  pub delete_above : ℕ → e.Store → e.Store
  pub affected : ℕ → e.Store → Option ℕ
  pub find_at-delete_above :
      (l i n : ℕ) (s : e.Store)
      → e.find_at l i (delete_above n s) ≡ (if ltb n l then none else e.find_at l i s)

pub record SyncStores : Type 1 where
  pub indexer : IndexerStores
  pub deletion : EventDeletion indexer.events
  pub sync : Table ChainSyncCheckpoint contract_of

-- The indexer's state, which the service shares, and its own.
pub record Sync (t : SyncStores) : Type 0 where
  pub indexer : Indexer t.indexer
  pub sync : t.sync.Store
  -- the latest first
  pub reorgs : List ReorgEvent
  pub is_running : Bool
  pub last_run_at : Option ℕ
  pub last_backfill_count : ℕ

-- The answer to `getLedgers`: an HTTP error, an exception or a body without the list is
-- `no_ledgers`; a ledger is given by its hash, where that is a text.
pub data LedgersAnswer : Type 0 where
  no_ledgers : LedgersAnswer
  ledgers : List (Option ℕ) → LedgersAnswer

-- The answer to the `getEvents` that asks for the head of the chain.
pub data HeadAnswer : Type 0 where
  no_head : HeadAnswer
  head : Option ℕ → HeadAnswer

-- An item of the events: no object, or the fields where they have the type that the code tests.
-- The empty text and 'unknown' are `other_topic 0`.
pub record EventRecord : Type 0 where
  pub ledger : Option ℕ
  pub log_index : Option ℕ
  pub type : Option Topic
  -- of `value`
  pub value_event : Option Topic
  pub value_event_type : Option Topic
  pub value : Option EventData
  pub contents : Option EventData
  pub tx_hash : Option ℕ

pub data EventItem : Type 0 where
  no_object : EventItem
  object : EventRecord → EventItem

-- The answer to the `getEvents` of the backfill: `failed` is an HTTP error, an error of the RPC or
-- an exception of the request.
pub data EventsAnswer : Type 0 where
  failed : EventsAnswer
  events : List EventItem → EventsAnswer

-- The RPC during one run: the hash lookups, 0 for the one of the detection, 1 for the fork and 2 for
-- the one at the end; the head; and the events from a ledger on. `now` is the time of the run.
pub record Rpc : Type 0 where
  pub get_ledgers : ℕ → ℕ → LedgersAnswer
  pub get_head : HeadAnswer
  pub get_events : ℕ → EventsAnswer
  pub now : ℕ

-- The configuration: INDEXER_REORG_ROLLBACK_DEPTH, RECONCILE_WINDOW, RECONCILE_INTERVAL_MS, and
-- the payload without properties.
pub record SyncConfig : Type 0 where
  pub rollback_depth : Option ℕ
  pub window : Option ℕ
  pub interval_ms : Option ℕ
  -- SOROBAN_RPC_URL is set
  pub has_rpc : Bool
  pub empty : EventData

-- `a ?? n`
abbrev pub or_default : Option ℕ → ℕ → ℕ
or_default none n = n
or_default (some m) n = m
