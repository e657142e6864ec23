-- ===== src/Listener/Both.antt =====
-- backend/src/soroban/soroban.listener.ts and backend/src/indexer/indexer.service.ts over one event.
use stow.Prelude.{ℕ, ◌≡◌, refl, ap, ◌∙◌, true, false, List, [], ◌∷◌, ltb, if◌then◌else◌}
use stow.Prelude.Int.{ℤ, ◌+ℤ◌}
use stow.Prelude.Table.{Table}
use stow.Prelude.Result.{Result, ok, err, then_do, pure}
use stow.Amounts.{decimal}
use stow.Events.{Topic, text, amount_text}
use stow.Projection.{account_field}
use stow.Projection.State.{Db}
use stow.Projection.Doubling.{amount_of, deposit_lem}
use stow.Indexer.{created_event, event_type_of, fetch_and_persist_events}
use stow.Indexer.State.{RpcEvent, IndexerStores, Indexer}
use stow.Indexer.Handlers.{poll_contract_events}
use stow.Indexer.Handlers.Projected.{batch_deposit}
use stow.Soroban.{PageState, events_of, page_of_state}
use stow.Listener.{
  SystemState, state_key, ListenerStores, Listener, sort_events, process_event, process_events,
  get_last_processed_ledger, conclude, take_events, poll_events,
}

-- The listener's stores beside the indexer's: they share the projections.
abbrev pub beside : IndexerStores → Table SystemState state_key → ListenerStores
beside t states = record { projections = t.projections; states = states }

module _ (t : ListenerStores) where
  conclude_one :
      (now m latest : ℕ) (e : RpcEvent) (s : Listener t)
      → (conclude t latest s
          (process_events t.projections now (e ∷ []) m s.projections)).projections
        ≡ (process_event t.projections now e s.projections).1
  unfolding process_events
  conclude_one now m latest e s = by_event (process_event t.projections now e s.projections)
    where
      by_event :
          (p : Result (Unit {0}) × Db t.projections)
          → (conclude t latest s
              (then_do (λ _. pure (if ltb m e.ledger then e.ledger else m)) p)).projections
            ≡ p.1
      by_event (ok _, d) = refl
      by_event (err x, d) = refl

  -- A poll over one event applies it.
  poll_one :
      (now : ℕ) (answer : PageState) (e : RpcEvent) (s : Listener t)
      → s.is_polling ≡ false
      → events_of answer.accumulated ≡ e ∷ []
      → (poll_events t true (λ _. answer) now s).projections
        ≡ (process_event t.projections now e s.projections).1
  unfolding poll_events sort_events
  poll_one now answer e s free alone = rw free (
      ap
        (λ es.
          (take_events t now es answer.latest_ledger (record s { is_polling = true })).projections)
        alone
      ∙ conclude_one now (get_last_processed_ledger t s.states) answer.latest_ledger e
          (record s { is_polling = true }))

-- The listener and the indexer fetch the same deposit and apply it to the same projections: where
-- the RPC answers both with one deposit of a readable amount into an account that holds one, no
-- poll of the listener runs, and the deposit's new row is the indexer's only pending one, a poll of
-- each credits the deposit twice.
pub both_credit :
    (t : IndexerStores) (states : Table SystemState state_key) (now later : ℕ) (answer : PageState)
    (e : RpcEvent) (topics : List Topic) (l : Listener (beside t states)) (s : Indexer t) (z x : ℤ)
    → l.is_polling ≡ false
    → events_of answer.accumulated ≡ e ∷ []
    → e.topic ≡ Topic.deposit ∷ topics
    → amount_text e.value.amount ≡ decimal x
    → t.events.find_pending (fetch_and_persist_events t (λ _. page_of_state answer) s).1.events
      ≡ created_event 0 e ∷ []
    → amount_of t.projections (text (account_field e.value)) l.projections ≡ decimal z
    → let polled = (poll_events (beside t states) true (λ _. answer) now l).projections in
      amount_of t.projections
        (text (account_field e.value))
        (poll_contract_events t true later
          (λ _. page_of_state answer)
          (record s { projections = polled })).projections
      ≡ decimal (z +ℤ x +ℤ x)
unfolding poll_contract_events process_event fetch_and_persist_events
both_credit t states now later answer e topics l s z x free alone deposit amount pending held =
    let lt = beside t states in
    let k : ℕ = text (account_field e.value) in
    let amount_at = amount_of t.projections k in
    let polled = (poll_events lt true (λ _. answer) now l).projections in
    let first : amount_at polled ≡ decimal (z +ℤ x) =
      ap amount_at (poll_one lt now answer e l free alone)
      ∙ rw deposit (deposit_lem t.projections now e.value l.projections k z x refl amount held) in
    let fetched =
      (fetch_and_persist_events t (λ _. page_of_state answer)
        (record s { projections = polled })).1 in
    ap amount_at
      (batch_deposit t later (created_event 0 e) fetched (ap event_type_of deposit) pending)
    ∙ deposit_lem t.projections later e.value polled k (z +ℤ x) x refl amount first
