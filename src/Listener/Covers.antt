-- ===== src/Listener/Covers.antt =====
-- backend/src/soroban/soroban.listener.ts: the checkpoint of a poll and the events that it applied.
use mathlib.Core.List.{Permᴰ}
use stow.Prelude.{
  ℕ, ◌+◌, ◌≤◌, ◌≡◌, ◌≢◌, refl, sym, ap, ◌∙◌, inl, inr, Bool, true, false, List, [], ◌∷◌, All, arith,
  ltb, max, Bool-cases, if◌then◌else◌,
}
use stow.Prelude.Result.{Error, Result, ok, err, then_do}
use stow.Projection.State.{Stores, Db}
use stow.Indexer.State.{RpcEvent}
use stow.Indexer.Fetch.{All-le}
use stow.Soroban.{PageState, events_of}
use stow.Listener.Order.{
  IsAscending, sort_events-IsAscending, sort_events-Perm, sort_events-covered,
}
use stow.Listener.{
  ListenerStores, Listener, last_ledger_key, sort_events, process_event, process_events,
  get_last_processed_ledger, persist_last_processed_ledger, conclude, take_events, poll_events,
}

err-ne-ok : {A : Type 0} {x : Error} {a : A} → ¬ (Result.err x ≡ ok a)
err-ne-ok e = cc

module _ (b : Stores) (now : ℕ) where
  -- Every event was applied without an exception, one after the other, from `d` to `d'`.
  abbrev pub Applied : List RpcEvent → Db b → Db b → Type 0
  Applied [] d d' = d' ≡ d
  Applied (e ∷ es) d d' =
      ((process_event b now e d).0 ≡ ok tt) × Applied es (process_event b now e d).1 d'

  process_events-Applied :
      (es : List RpcEvent) (m n : ℕ) (d d' : Db b)
      → process_events b now es m d ≡ (ok n, d')
      → (m ≤ n) × All (λ e. e.ledger ≤ n) es × Applied es d d'
  unfolding process_events
  process_events-Applied [] m n d d' h =
      let same : m ≡ n = cc in (ground arith, tt, sym (ap (λ p. p.1) h))
  process_events-Applied (e ∷ es) m n d d' h =
      by_event (process_event b now e d) refl
        (λ d₁ h₁. process_events-Applied es (if ltb m e.ledger then e.ledger else m) n d₁ d' h₁)
    where
      next : ℕ
      next = if ltb m e.ledger then e.ledger else m

      by_event :
          (p : Result (Unit {0}) × Db b)
          → process_event b now e d ≡ p
          → ((d₁ : Db b)
              → process_events b now es next d₁ ≡ (ok n, d')
              → (next ≤ n) × All (λ x. x.ledger ≤ n) es × Applied es d₁ d')
          → (m ≤ n) × All (λ x. x.ledger ≤ n) (e ∷ es) × Applied (e ∷ es) d d'
      by_event (err x, d₁) is rest =
          let after = sym (ap (then_do (λ _. process_events b now es next)) is) ∙ h in
          absurd (err-ne-ok (ap (λ q. q.0) after))
      by_event (ok tt, d₁) is rest =
          let after = sym (ap (then_do (λ _. process_events b now es next)) is) ∙ h in
          let (le, covered, applied) = rest d₁ after in
          (ground arith, (ground arith, covered), (ap (λ q. q.0) is, rw (ap (λ q. q.1) is) applied))

module _ (t : ListenerStores) where
  -- What a poll may do: the checkpoint stays, or it moves up to a ledger that no event of the page
  -- is beyond, after the page's events were applied in the order of their ledgers.
  abbrev pub Covered : ℕ → List RpcEvent → Listener t → Listener t → Type 0
  Covered now events s s' =
      let last = get_last_processed_ledger t s.states in
      let last' = get_last_processed_ledger t s'.states in
      (last ≤ last')
      × (last' ≢ last
          → All (λ e. e.ledger ≤ last') events
            × ((es : List RpcEvent) × IsAscending es
                × Permᴰ es events
                × Applied t.projections now es s.projections s'.projections))

  read_persisted :
      (ledger : ℕ) (s : t.states.Store)
      → get_last_processed_ledger t (persist_last_processed_ledger t ledger s) ≡ ledger
  unfolding get_last_processed_ledger persist_last_processed_ledger
  read_persisted ledger s =
      rw
        (t.states.find_one-save last_ledger_key (record { key = last_ledger_key; value = ledger })
          s)
        refl

  unmoved :
      (now : ℕ) (events : List RpcEvent) (s s' : Listener t)
      → s'.states ≡ s.states
      → Covered now events s s'
  unmoved now events s s' same =
      let kept : get_last_processed_ledger t s'.states ≡ get_last_processed_ledger t s.states =
        ap (get_last_processed_ledger t) same in
      (omega arith, λ moved. absurd (moved kept))

  conclude-Covered :
      (now latest : ℕ) (events : List RpcEvent) (s : Listener t) (p : Result ℕ × Db t.projections)
      → process_events t.projections now
          (sort_events events)
          (get_last_processed_ledger t s.states)
          s.projections
        ≡ p
      → Covered now events s (conclude t latest s p)
  conclude-Covered now latest events s (err x, d) is =
      unmoved now events s (conclude t latest s (err x, d)) refl
  conclude-Covered now latest events s (ok n, d) is =
      let (le, covered, applied) =
        process_events-Applied t.projections now (sort_events events)
          (get_last_processed_ledger t s.states) n s.projections d is in
      rw (read_persisted (max n latest) s.states) (
        omega arith,
        λ moved. (
          sort_events-covered (max n latest) events
              (All-le n (max n latest) (sort_events events) (omega arith) covered),
          (sort_events events, sort_events-IsAscending events, sort_events-Perm events, applied),
        ),
      )

  take_events-Covered :
      (now : ℕ) (events : List RpcEvent) (latest : ℕ) (s : Listener t)
      → Covered now events s (take_events t now events latest s)
  take_events-Covered now [] latest s =
      elim (Bool-cases (ltb (get_last_processed_ledger t s.states) latest)) [
        | inr behind ↦ rw behind (unmoved now [] s s refl)
        | inl ahead ↦ rw ahead (
            rw (read_persisted latest s.states)
              (ground arith, λ moved. (tt, ([], tt, Permᴰ.nil, refl))))
      ]
  take_events-Covered now (e ∷ es) latest s =
      conclude-Covered now latest (e ∷ es) s
        (process_events t.projections now (sort_events (e ∷ es))
          (get_last_processed_ledger t s.states) s.projections)
        refl

  -- A poll never moves the checkpoint back; where it moves it, no event of the page is beyond the
  -- new checkpoint, and the projections are what comes of applying every event of the page, once,
  -- without an exception, in the order of the ledgers.
  pub poll_events-Covered :
      (configured : Bool) (get_events : ℕ → PageState) (now : ℕ) (s : Listener t)
      → let page = get_events (max (get_last_processed_ledger t s.states + 1) 1) in
        Covered now (events_of page.accumulated) s (poll_events t configured get_events now s)
  unfolding poll_events
  poll_events-Covered false get_events now s =
      unmoved now
        (events_of (get_events (max (get_last_processed_ledger t s.states + 1) 1)).accumulated) s s
        refl
  poll_events-Covered true get_events now s =
      let page = get_events (max (get_last_processed_ledger t s.states + 1) 1) in
      elim (Bool-cases s.is_polling) [
        | inl busy ↦ rw busy (unmoved now (events_of page.accumulated) s s refl)
        | inr free ↦ rw free (
            take_events-Covered now (events_of page.accumulated) page.latest_ledger
              (record s { is_polling = true }))
      ]
