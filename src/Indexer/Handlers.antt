-- ===== src/Indexer/Handlers.antt =====
-- backend/src/indexer/indexer.service.ts: what the indexer does with a stored event. `now` is the
-- time of the call.
pub mod Process
pub mod Retries
pub mod Withdrawals
pub mod Projected
use stow.Prelude.{
  ℕ, suc, ◌+◌, Bool, true, false, Option, none, some, List, [], ◌∷◌, leb, ◌==◌, ◌||◌, if◌then◌else◌,
}
use stow.Prelude.Result.{Result, ok, err, Action, pure, raise, modify, internal, ◌>>=◌, ◌>>◌}
use stow.Amounts.{Amount, zero_amount}
use stow.Events.{
  Topic, Field, undefined, null, value, EventData, or_else, text, amount_text, to_date,
}
use stow.Projection
use stow.Projection.State.{Db}
use stow.Indexer.{fetch_and_persist_events}
use stow.Indexer.State.{
  EventStatus, ContractEvent, WithdrawalStatus, PendingWithdrawal, Harvest, IndexerStores, Indexer,
  RpcPage,
}

abbrev pub max_retries : ℕ
max_retries = 5

-- `stringifyStroops(value, fallback)`
abbrev pub stringify_stroops : {S : Type 0} → Field Amount → Option Amount → Action S Amount
stringify_stroops (value a) fallback = pure a
stringify_stroops undefined (some a) = pure a
stringify_stroops null (some a) = pure a
stringify_stroops undefined none = raise internal
stringify_stroops null none = raise internal

-- `extractWithdrawalId`
abbrev pub extract_withdrawal_id : EventData → Field ℕ
extract_withdrawal_id d =
    or_else d.withdrawal_id
      (or_else d.camel_withdrawal_id (or_else d.id (or_else d.request_id d.camel_request_id)))

-- `Map.prototype.has` and `delete` on the keys
abbrev pub has : ℕ → List ℕ → Bool
has k [] = false
has k (j ∷ js) = k == j || has k js

abbrev pub delete : ℕ → List ℕ → List ℕ
delete k [] = []
delete k (j ∷ js) = if k == j then delete k js else j ∷ delete k js

abbrev pub request_id_of : EventData → ℕ
request_id_of d = text (or_else d.id d.request_id)

module _ (t : IndexerStores) where
  unfoldable pub register_pending_withdrawal : ℕ → Indexer t → Indexer t
  register_pending_withdrawal id s = record s { registered = id ∷ delete id s.registered }

  unfoldable pub is_withdrawal_pending : ℕ → Indexer t → Bool
  is_withdrawal_pending id s = has id s.registered

  apply_withdraw_requested : EventData → Indexer t → Indexer t
  apply_withdraw_requested d s = elim (t.withdrawals.find_one (request_id_of d) s.withdrawals) [
    | some existing ↦ s
    | none ↦ record s {
      withdrawals =
          t.withdrawals.save
            (record {
              request_id = request_id_of d;
              owner = text d.owner;
              shares = amount_text d.shares;
              claimable_at = to_date d.claimable_at;
              status = WithdrawalStatus.pending;
              cancelled_at = none;
            })
            s.withdrawals;
    }
  ]

  claim_registered : ℕ → Indexer t → Indexer t
  claim_registered id s =
      if has id s.registered
      then record s {
        registered = delete id s.registered;
        withdrawals_processed = s.withdrawals_processed + 1;
      }
      else s

  resolve : Field ℕ → Indexer t → Indexer t
  unfolding claim_registered
  resolve (value id) s = claim_registered id s
  resolve undefined s = s
  resolve null s = s

  decode_withdraw_claimed : EventData → Indexer t → Indexer t
  unfolding resolve
  decode_withdraw_claimed d s = resolve (extract_withdrawal_id d) s

  -- `update({ request_id }, …)`, which changes the row if there is one
  apply_withdraw_cancelled : ℕ → EventData → Indexer t → Indexer t
  apply_withdraw_cancelled now d s = elim (t.withdrawals.find_one (request_id_of d) s.withdrawals) [
    | none ↦ s
    | some w ↦ record s {
      withdrawals =
          t.withdrawals.save
            (record w { status = WithdrawalStatus.cancelled; cancelled_at = some now })
            s.withdrawals;
    }
  ]

  save_harvest : Harvest → Indexer t → Indexer t
  save_harvest h s = record s { harvests = h ∷ s.harvests }

  apply_harvested : ContractEvent → Action (Indexer t) (Unit {0})
  unfolding save_harvest
  apply_harvested e = do
    delta ← stringify_stroops e.contents.delta none
    fee ← stringify_stroops e.contents.fee (some zero_amount)
    modify (
        save_harvest (record {
          delta = delta;
          fee = fee;
          harvested_at = to_date e.contents.timestamp;
          ledger = e.ledger;
          tx_hash = e.tx_hash;
        }))

  project : ℕ → Topic → EventData → Action (Indexer t) (Unit {0})
  project now topic d s =
      let (r, db) = Projection.apply t.projections now topic d s.projections in
      (r, record s { projections = db })

  dispatch : ℕ → Topic → ContractEvent → Action (Indexer t) (Unit {0})
  unfolding decode_withdraw_claimed apply_withdraw_requested apply_withdraw_cancelled
      apply_harvested project
  dispatch now Topic.withdraw_claimed e = modify (decode_withdraw_claimed e.contents)
  dispatch now Topic.withdraw_requested e = modify (apply_withdraw_requested e.contents)
  dispatch now Topic.withdraw_cancelled e = modify (apply_withdraw_cancelled now e.contents)
  dispatch now Topic.harvested e = apply_harvested e
  dispatch now topic e = project now topic e.contents

  unfoldable pub decode_and_apply : ℕ → ContractEvent → Action (Indexer t) (Unit {0})
  unfolding dispatch
  decode_and_apply now e = dispatch now e.event_type e

  abbrev count_processed : Topic → Indexer t → Indexer t
  count_processed Topic.deposit s = record s { deposits_processed = s.deposits_processed + 1 }
  count_processed Topic.withdraw s = record s {
    withdrawals_processed = s.withdrawals_processed + 1;
  }
  count_processed _ s = s

  record_processed : Topic → Indexer t → Indexer t
  record_processed topic s =
      count_processed topic (record s { events_processed = s.events_processed + 1 })

  abbrev save_event : ContractEvent → Indexer t → Indexer t
  save_event e s = record s { events = t.events.save e s.events }

  -- What `applyEvent` saves of an event that could not be applied.
  abbrev pub failed_event : ContractEvent → ContractEvent
  failed_event e = record e {
    retry_count = e.retry_count + 1;
    status = if leb max_retries (e.retry_count + 1) then EventStatus.dlq else EventStatus.failed;
  }

  abbrev pub processed_event : ContractEvent → ContractEvent
  processed_event e = record e { status = EventStatus.processed }

  conclude : ContractEvent → Result (Unit {0}) × Indexer t → Indexer t
  unfolding record_processed
  conclude e (ok _, s) = record_processed e.event_type (save_event (processed_event e) s)
  conclude e (err _, s) = save_event (failed_event e) s

  unfoldable pub apply_event : ℕ → ContractEvent → Indexer t → Indexer t
  unfolding decode_and_apply conclude
  apply_event now e s = conclude e (decode_and_apply now e s)

  unfoldable pub apply_events : ℕ → List ContractEvent → Indexer t → Indexer t
  apply_events now [] s = s
  apply_events now (e ∷ es) s = apply_events now es (apply_event now e s)

  unfoldable pub process_pending_batch : ℕ → Indexer t → Indexer t
  unfolding apply_events
  process_pending_batch now s = apply_events now (t.events.find_pending s.events) s

  -- `pollContractEvents`, where `SOROBAN_CONTRACT_ID` is configured or not
  unfoldable pub poll_contract_events : Bool → ℕ → (ℕ → RpcPage) → Indexer t → Indexer t
  unfolding process_pending_batch
  poll_contract_events configured now rpc s =
      if configured then process_pending_batch now (fetch_and_persist_events t rpc s).1 else s
