-- ===== src/Listener/Stuck.antt =====
-- backend/src/soroban/soroban.listener.ts: polls that stop at the same event.
use stow.Prelude.{
  ℕ, zero, suc, ◌+◌, ◌≡◌, refl, ap, ◌∙◌, true, false, List, [], ◌∷◌, ltb, max, if◌then◌else◌,
}
use stow.Prelude.Int.{ℤ, ◌+ℤ◌}
use stow.Prelude.Result.{Result, Error, ok, err, then_do}
use stow.Amounts.{decimal}
use stow.Events.{Topic, text, amount_text}
use stow.Projection.{account_field}
use stow.Projection.State.{Db}
use stow.Projection.Doubling.{amount_of, deposit_lem}
use stow.Indexer.State.{RpcEvent}
use stow.Soroban.{PageState, events_of}
use stow.Listener.{
  ListenerStores, Listener, sort_events, process_event, process_events, get_last_processed_ledger,
  conclude, take_events, poll_events,
}

abbrev pub times : ℕ → ℤ → ℤ → ℤ
times zero x z = z
times (suc n) x z = times n x z +ℤ x

module _ (t : ListenerStores) where
  -- `n` polls, one after the other, with the same answer of the RPC.
  abbrev pub polls : ℕ → (ℕ → PageState) → ℕ → Listener t → Listener t
  polls zero rpc now s = s
  polls (suc n) rpc now s = poll_events t true rpc now (polls n rpc now s)

  process_events-stuck :
      (now m : ℕ) (first second : RpcEvent) (rest : List RpcEvent) (e : Error)
      (d : Db t.projections)
      → ((d' : Db t.projections) → process_event t.projections now second d' ≡ (err e, d'))
      → (x : Error) × (process_events t.projections now (first ∷ second ∷ rest) m d
          ≡ (err x, (process_event t.projections now first d).1))
  unfolding process_events
  process_events-stuck now m first second rest e d fails =
      by_first (process_event t.projections now first d)
    where
      next : ℕ
      next = if ltb m first.ledger then first.ledger else m

      by_first :
          (p : Result (Unit {0}) × Db t.projections)
          → (x : Error) × (then_do (λ _. process_events t.projections now (second ∷ rest) next) p
              ≡ (err x, p.1))
      by_first (err x, d') = (x, refl)
      by_first (ok tt, d') = (
        e,
        ap
            (then_do (λ _.
              process_events t.projections now rest
                (if ltb next second.ledger then second.ledger else next)))
            (fails d'),
      )

  take_events-sorted :
      (now latest : ℕ) (events : List RpcEvent) (s : Listener t) (first : RpcEvent)
      (rest : List RpcEvent)
      → sort_events events ≡ first ∷ rest
      → take_events t now events latest s
        ≡ conclude t latest s (
            process_events t.projections now
              (first ∷ rest)
              (get_last_processed_ledger t s.states)
              s.projections)
  unfolding sort_events
  take_events-sorted now latest [] s first rest sorted = absurd cc
  take_events-sorted now latest (x ∷ xs) s first rest sorted =
      ap
        (λ es. conclude t latest s (
          process_events t.projections now es (get_last_processed_ledger t s.states) s.projections))
        sorted

  -- One poll over an event and a next one that fails.
  poll_stuck :
      (now : ℕ) (rpc : ℕ → PageState) (s : Listener t) (first second : RpcEvent)
      (rest : List RpcEvent) (e : Error)
      → s.is_polling ≡ false
      → sort_events (events_of (rpc (max (get_last_processed_ledger t s.states + 1) 1)).accumulated)
        ≡ first ∷ second ∷ rest
      → ((d : Db t.projections) → process_event t.projections now second d ≡ (err e, d))
      → poll_events t true rpc now s ≡ record s {
        projections = (process_event t.projections now first s.projections).1;
        is_polling = false;
      }
  unfolding poll_events
  poll_stuck now rpc s first second rest e free sorted fails =
      let page = rpc (max (get_last_processed_ledger t s.states + 1) 1) in
      let last = get_last_processed_ledger t s.states in
      let (x, stops) = process_events-stuck now last first second rest e s.projections fails in
      let begun : Listener t = record s { is_polling = true } in
      rw free (
        ap (λ (l : Listener t). record l { is_polling = false })
          (take_events-sorted now page.latest_ledger (events_of page.accumulated) begun first
              (second ∷ rest) sorted
            ∙ ap (conclude t page.latest_ledger begun) stops))

  -- Where no poll runs, the first event in the order of the ledgers is a deposit of a readable
  -- amount into an account that holds one, the next event fails in every state without a write, and
  -- the RPC gives the same answer each time, `n` polls credit the deposit `n` times and leave the
  -- checkpoint: the polls go on so.
  pub polls_deposit :
      (n now : ℕ) (rpc : ℕ → PageState) (s : Listener t) (first second : RpcEvent)
      (topics : List Topic) (rest : List RpcEvent) (e : Error) (z x : ℤ)
      → s.is_polling ≡ false
      → sort_events (events_of (rpc (max (get_last_processed_ledger t s.states + 1) 1)).accumulated)
        ≡ first ∷ second ∷ rest
      → first.topic ≡ Topic.deposit ∷ topics
      → amount_text first.value.amount ≡ decimal x
      → ((d : Db t.projections) → process_event t.projections now second d ≡ (err e, d))
      → amount_of t.projections (text (account_field first.value)) s.projections ≡ decimal z
      → (amount_of t.projections (text (account_field first.value)) (polls n rpc now s).projections
          ≡ decimal (times n x z))
        × ((polls n rpc now s).states ≡ s.states)
        × ((polls n rpc now s).is_polling ≡ false)
  unfolding process_event
  polls_deposit zero now rpc s first second topics rest e z x free sorted deposit amount fails
        held =
      (held, refl, free)
  polls_deposit (suc n) now rpc s first second topics rest e z x free sorted deposit amount fails
        held =
      let (before, same, idle) =
        polls_deposit n now rpc s first second topics rest e z x free sorted deposit amount fails
          held in
      let q : Listener t = polls n rpc now s in
      let k : ℕ = text (account_field first.value) in
      let one = poll_stuck now rpc q first second rest e idle (rw same sorted) fails in
      let credited =
        deposit_lem t.projections now first.value q.projections k (times n x z) x refl amount
          before in
      (
        ap (λ (l : Listener t). amount_of t.projections k l.projections) one ∙ rw deposit credited,
        ap (λ (l : Listener t). l.states) one ∙ same,
        ap (λ (l : Listener t). l.is_polling) one,
      )
