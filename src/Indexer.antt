-- ===== src/Indexer.antt =====
-- backend/src/indexer/indexer.service.ts: contract events are fetched from the RPC, stored, and
-- applied to the projections. Logging, the clock readings kept for the metrics, and the guard
-- against overlapping polls are left out: a poll runs to its end.
pub mod State
pub mod Fetch
pub mod Rows
pub mod Refetch
pub mod Reindex
pub mod Backfill
pub mod Handlers
pub mod Sample
mod Tests
use stow.Prelude.{ℕ, suc, ◌+◌, Option, none, some, List, [], ◌∷◌, ltb, max, if◌then◌else◌}
use stow.Events.{Topic}
use State.{EventStatus, ContractEvent, RpcEvent, RpcPage, Checkpoint, IndexerStores, Indexer}

-- `CHECKPOINT_LEDGER_KEY` and `CHECKPOINT_LEDGER_KEY_LATEST`
abbrev pub ledger_key : ℕ
ledger_key = 0

abbrev pub latest_key : ℕ
latest_key = 1

-- `topic.length > 0 ? topic[0] : 'unknown'`; 'unknown' is a topic that no handler names.
abbrev pub event_type_of : List Topic → Topic
event_type_of [] = Topic.other_topic 0
event_type_of (topic ∷ _) = topic

abbrev pub created_event : ℕ → RpcEvent → ContractEvent
created_event index e = record {
  ledger = e.ledger;
  log_index = index;
  event_type = event_type_of e.topic;
  contents = e.value;
  tx_hash = e.tx_hash;
  status = EventStatus.pending;
  retry_count = 0;
}

-- What the loop over a page carries.
pub record Tally (t : IndexerStores) : Type 0 where
  pub rows : t.events.Store
  pub persisted : ℕ
  pub max_ledger : ℕ

abbrev value_or_zero : Option Checkpoint → ℕ
value_or_zero none = 0
value_or_zero (some r) = r.value

abbrev pub or_last : Option ℕ → ℕ → ℕ
or_last none last = last
or_last (some latest) _ = latest

module _ (t : IndexerStores) where
  -- `getCheckpoint(key)`; a row's value is the number that its text stands for.
  unfoldable pub get_checkpoint : ℕ → t.checkpoints.Store → ℕ
  get_checkpoint key s = value_or_zero (t.checkpoints.find_one key s)

  -- `setCheckpoint(key, value)`: the row is created, or updated in place.
  unfoldable pub set_checkpoint : ℕ → ℕ → t.checkpoints.Store → t.checkpoints.Store
  set_checkpoint key ledger s = t.checkpoints.save (record { key = key; value = ledger }) s

  -- One round of the loop of `fetchAndPersistEvents`.
  unfoldable pub persist_one : ℕ → RpcEvent → Tally t → Tally t
  persist_one index e y = elim (t.events.find_at e.ledger index y.rows) [
    | some existing ↦ record y {
      max_ledger = if ltb y.max_ledger e.ledger then e.ledger else y.max_ledger;
    }
    | none ↦ record {
      rows = t.events.save (created_event index e) y.rows;
      persisted = y.persisted + 1;
      max_ledger = if ltb y.max_ledger e.ledger then e.ledger else y.max_ledger;
    }
  ]

  unfoldable pub persist_all : ℕ → List RpcEvent → Tally t → Tally t
  unfolding persist_one
  persist_all index [] y = y
  persist_all index (e ∷ es) y = persist_all (suc index) es (persist_one index e y)

  abbrev pub start_ledger : ℕ → ℕ
  start_ledger last = if ltb 0 last then last + 1 else 1

  -- The new checkpoint of `fetchAndPersistEvents`.
  abbrev pub new_checkpoint : List RpcEvent → ℕ → ℕ → ℕ → ℕ
  new_checkpoint [] last max_ledger safe_latest = max last safe_latest
  new_checkpoint (_ ∷ _) last max_ledger safe_latest = max max_ledger safe_latest

  -- The rows persisted, and the new state; `rpc` is what `getEvents` answers for a start ledger.
  unfoldable pub fetch_and_persist_events : (ℕ → RpcPage) → Indexer t → ℕ × Indexer t
  unfolding get_checkpoint set_checkpoint persist_all
  fetch_and_persist_events rpc s =
      let last = get_checkpoint ledger_key s.checkpoints in
      let page = rpc (start_ledger last) in
      let safe_latest = or_last page.latest_ledger last in
      let seen =
        if ltb 0 safe_latest
        then set_checkpoint latest_key safe_latest s.checkpoints
        else s.checkpoints in
      let done =
        persist_all 0 page.events (record { rows = s.events; persisted = 0; max_ledger = last }) in
      let next = new_checkpoint page.events last done.max_ledger safe_latest in
      (
        done.persisted,
        record s {
          events = done.rows;
          checkpoints = if ltb last next then set_checkpoint ledger_key next seen else seen;
        },
      )

  -- `reindex(fromLedger)`
  unfoldable pub reindex : ℕ → Indexer t → Indexer t
  unfolding set_checkpoint
  reindex from_ledger s = record s {
    checkpoints = set_checkpoint ledger_key from_ledger s.checkpoints;
  }
