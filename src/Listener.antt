-- ===== src/Listener.antt =====
-- backend/src/soroban/soroban.listener.ts: the poller that applies the contract's events to the
-- projections by itself, beside the indexer. Logging is left out. `now` is the time of the poll.
pub mod Order
pub mod Covers
pub mod Stuck
pub mod Both
mod Tests
use stow.Prelude.{
  ℕ, suc, ◌+◌, Bool, true, false, Option, none, some, List, [], ◌∷◌, ltb, leb, max, if◌then◌else◌,
}
use stow.Prelude.Result.{Result, ok, err, Action, pure, ◌>>=◌}
use stow.Prelude.Table.{Table}
use stow.Events.{Topic}
use stow.Projection
use stow.Projection.State.{Stores, Db}
use stow.Indexer.State.{RpcEvent}
use stow.Soroban.{PageState, events_of}

-- entities/system-state.entity.ts; the value is the number that its text stands for.
pub record SystemState : Type 0 where
  pub key : ℕ
  pub value : ℕ

abbrev pub state_key : SystemState → ℕ
state_key r = r.key

-- `LAST_LEDGER_KEY`
abbrev pub last_ledger_key : ℕ
last_ledger_key = 0

pub record ListenerStores : Type 1 where
  pub projections : Stores
  pub states : Table SystemState state_key

pub record Listener (t : ListenerStores) : Type 0 where
  pub projections : Db t.projections
  pub states : t.states.Store
  pub is_polling : Bool

abbrev value_or_zero : Option SystemState → ℕ
value_or_zero none = 0
value_or_zero (some r) = r.value

-- `[...events].sort((a, b) => a.ledger - b.ledger)`, which keeps the order of equal ledgers
abbrev pub insert_event : RpcEvent → List RpcEvent → List RpcEvent
insert_event e [] = e ∷ []
insert_event e (x ∷ xs) =
    let rest = insert_event e xs in if leb e.ledger x.ledger then e ∷ x ∷ xs else x ∷ rest

unfoldable pub sort_events : List RpcEvent → List RpcEvent
sort_events [] = []
sort_events (e ∷ es) = insert_event e (sort_events es)

module _ (b : Stores) where
  -- `processEvent(event)`
  abbrev pub process_topics : ℕ → List Topic → RpcEvent → Action (Db b) (Unit {0})
  process_topics now [] e = pure tt
  process_topics now (topic ∷ _) e = Projection.apply b now topic e.value

  unfoldable pub process_event : ℕ → RpcEvent → Action (Db b) (Unit {0})
  process_event now e = process_topics now e.topic e

  -- The loop over the events; it returns the greatest ledger, beginning with `m`.
  unfoldable pub process_events : ℕ → List RpcEvent → ℕ → Action (Db b) ℕ
  unfolding process_event
  process_events now [] m = pure m
  process_events now (e ∷ es) m =
      process_event now e >>= λ _. process_events now es (if ltb m e.ledger then e.ledger else m)

module _ (t : ListenerStores) where
  -- `getLastProcessedLedger()`
  unfoldable pub get_last_processed_ledger : t.states.Store → ℕ
  get_last_processed_ledger s = value_or_zero (t.states.find_one last_ledger_key s)

  -- `persistLastProcessedLedger(ledger)`
  unfoldable pub persist_last_processed_ledger : ℕ → t.states.Store → t.states.Store
  persist_last_processed_ledger ledger s =
      t.states.save (record { key = last_ledger_key; value = ledger }) s

  -- What follows the loop: on an exception the checkpoint stays.
  abbrev pub conclude : ℕ → Listener t → Result ℕ × Db t.projections → Listener t
  conclude latest s (ok m, d) = record s {
    projections = d;
    states = persist_last_processed_ledger (max m latest) s.states;
  }
  conclude latest s (err e, d) = record s { projections = d }

  -- What a poll does with the answer of `getEvents`.
  abbrev pub take_events : ℕ → List RpcEvent → ℕ → Listener t → Listener t
  take_events now [] latest s =
      if ltb (get_last_processed_ledger s.states) latest
      then record s { states = persist_last_processed_ledger latest s.states }
      else s
  take_events now (e ∷ es) latest s = conclude latest s (
      process_events t.projections now (sort_events (e ∷ es)) (get_last_processed_ledger s.states)
        s.projections)

  -- `pollEvents()`; `configured` tells whether the contract is set, and `get_events` is the
  -- answer for a start ledger.
  unfoldable pub poll_events : Bool → (ℕ → PageState) → ℕ → Listener t → Listener t
  unfolding get_last_processed_ledger persist_last_processed_ledger process_events sort_events
  poll_events configured get_events now s =
      let page = get_events (max (get_last_processed_ledger s.states + 1) 1) in
      if configured
      then (if s.is_polling
          then s
          else record (take_events now (events_of page.accumulated) page.latest_ledger
              (record s { is_polling = true })) { is_polling = false })
      else s
