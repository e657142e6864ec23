-- ===== src/Listener/Tests.antt =====
-- The theorems at concrete inputs.
use stow.Prelude.{ℕ, ◌≡◌, refl, true, false, none, List, [], ◌∷◌}
use stow.Prelude.Int.{pos, ◌+ℤ◌}
use stow.Prelude.Result.{Error, err}
use stow.Prelude.Table.{list_table}
use stow.Amounts.{Amount, decimal, blank, malformed, undefined_text, sum_of}
use stow.Events.{Topic, undefined}
use stow.Balances
use stow.Goals
use stow.Projection
use stow.Projection.State.{Db}
use stow.Projection.Doubling.{amount_of}
use stow.Projection.Sample.{list_stores, sample_db, sample_data}
use stow.Indexer.State.{RpcEvent}
use stow.Indexer.Sample
use stow.Indexer.Sample.{rpc_event}
use stow.Soroban.{PageState}
use stow.Soroban.Normal.{SorobanEvent}
use stow.Listener.Covers.{Covered, poll_events-Covered}
use stow.Listener.Both.{beside, both_credit}
use stow.Indexer.{persist_all, persist_one, get_checkpoint, fetch_and_persist_events}
use stow.Indexer.Handlers.{poll_contract_events}
use stow.Soroban.{page_of_state}
use stow.Listener.Stuck.{polls, polls_deposit}
use stow.Listener.{
  state_key, ListenerStores, Listener, sort_events, process_event, process_events,
  get_last_processed_ledger, poll_events,
}

abbrev sample_stores : ListenerStores
sample_stores = record { projections = list_stores; states = list_table state_key }

-- The checkpoint is 10.
abbrev idle_listener : Listener sample_stores
idle_listener = record {
  projections = sample_db;
  states = record { key = 0; value = 10 } ∷ [];
  is_polling = false;
}

-- A deposit that names no amount.
abbrev bad_event : RpcEvent
bad_event = record (rpc_event 12 Topic.deposit) {
  value = record sample_data { amount = undefined };
}

abbrev page_of : List SorobanEvent → PageState
page_of es = record {
  accumulated = es;
  active_cursor = none;
  latest_ledger = 15;
  last_cursor = none;
  failures = 0;
}

-- The later ledger comes first.
abbrev good_page : ℕ → PageState
good_page from = page_of (
    record { id = 2; event = rpc_event 13 Topic.goal_contribution }
    ∷ record { id = 1; event = rpc_event 11 Topic.deposit }
    ∷ [])

abbrev bad_page : ℕ → PageState
bad_page from = page_of (
    record { id = 2; event = bad_event }
    ∷ record { id = 1; event = rpc_event 11 Topic.deposit }
    ∷ [])

no_sum : (held : Amount) → sum_of held (malformed undefined_text) ≡ err Error.syntax_error
unfolding sum_of
no_sum (decimal z) = refl
no_sum blank = refl
no_sum (malformed n) = refl

bad_event_fails :
    (d : Db list_stores) → process_event list_stores 5 bad_event d ≡ (err Error.syntax_error, d)
unfolding process_event Projection.apply Balances.credit
bad_event_fails d = rw no_sum refl

poll_events-Covered_example :
    Covered sample_stores 5
      (rpc_event 13 Topic.goal_contribution ∷ rpc_event 11 Topic.deposit ∷ [])
      idle_listener
      (poll_events sample_stores true good_page 5 idle_listener)
poll_events-Covered_example = poll_events-Covered sample_stores true good_page 5 idle_listener

-- That poll moves the checkpoint to the latest ledger.
poll_moves :
    get_last_processed_ledger sample_stores
      (poll_events sample_stores true good_page 5 idle_listener).states
    ≡ 15
unfolding get_last_processed_ledger poll_events process_events process_event sort_events
    Projection.apply Balances.credit sum_of Goals.apply_contribution ◌+ℤ◌ Goals.mark_reached
poll_moves = refl

polls_deposit_example :
    let after = polls sample_stores 2 bad_page 5 idle_listener in
    (amount_of list_stores 7 after.projections ≡ decimal (pos 50 +ℤ pos 25 +ℤ pos 25))
    × (after.states ≡ idle_listener.states)
    × (after.is_polling ≡ false)
unfolding sort_events
polls_deposit_example =
    polls_deposit sample_stores 2 5 bad_page idle_listener (rpc_event 11 Topic.deposit) bad_event []
      [] Error.syntax_error (pos 50) (pos 25) refl refl refl refl bad_event_fails refl

abbrev one_deposit : PageState
one_deposit = page_of (record { id = 1; event = rpc_event 11 Topic.deposit } ∷ [])

both_credit_example :
    let polled =
      (poll_events
        (beside Sample.sample_stores (list_table state_key))
        true
        (λ _. one_deposit)
        5
        idle_listener).projections in
    amount_of list_stores 7
      (poll_contract_events Sample.sample_stores true 6
        (λ _. page_of_state one_deposit)
        (record (Sample.empty_indexer) { projections = polled })).projections
    ≡ decimal (pos 50 +ℤ pos 25 +ℤ pos 25)
unfolding fetch_and_persist_events persist_all persist_one get_checkpoint
both_credit_example =
    both_credit Sample.sample_stores (list_table state_key) 5 6 one_deposit
      (rpc_event 11 Topic.deposit) [] idle_listener Sample.empty_indexer (pos 50) (pos 25) refl refl
      refl refl refl refl
