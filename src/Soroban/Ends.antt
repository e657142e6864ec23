-- ===== src/Soroban/Ends.antt =====
-- backend/src/soroban/soroban.service.ts: how far the loop over the pages goes.
use stow.Prelude.{
  ℕ, zero, suc, ◌-◌, ◌<◌, ◌≡◌, ◌≢◌, refl, sym, ap, ◌∙◌, inl, inr, true, Option, some, ◌++◌, length,
  length-append, arith, ltb, ◌==◌, Bool-cases, ◌||◌,
}
use stow.Events.{EventData}
use stow.Soroban.Rounds.{fetch_page-answered, fetch_page-thrown}
use stow.Soroban.{
  RpcBody, PageState, Round, stops, continues, take_page, Client, fetch_page, first_state,
  fetch_pages, get_events, has_ledger_from, or_latest, max_events,
}
use stow.Soroban.Normal.{normalize_all}
use stow.Soroban.Calls.{Answer, answered, thrown, with_retry}

-- A page that holds something holds an event that can be read.
abbrev pub IsReadable : EventData → RpcBody → Type 0
IsReadable empty body = length body.events ≢ 0 → 0 < length (normalize_all empty body.events)

stops-ne-continues : {p q : PageState} → ¬ (stops p ≡ continues q)
stops-ne-continues e = cc

continues-eq : {p q : PageState} → continues p ≡ continues q → p ≡ q
continues-eq e = cc

take_page-grows :
    (empty : EventData) (n : ℕ) (body : RpcBody) (p q : PageState)
    → IsReadable empty body
    → take_page empty n body p ≡ continues q
    → length p.accumulated < length q.accumulated
unfolding take_page
take_page-grows empty n body p q h e = elim (Bool-cases body.is_failure) [
  | inl failure ↦ absurd (stops-ne-continues (rw failure at e))
  | inr fine ↦ elim (Bool-cases (length body.events == 0)) [
    | inl none_left ↦ absurd (stops-ne-continues (rw (fine, none_left) at e))
    | inr some_left ↦
        let page = normalize_all empty body.events in
        let more : 0 < length page = h (ground arith) in
        elim (Bool-cases (
          has_ledger_from (or_latest body.latest_ledger p.latest_ledger) page
          || ltb (length body.events) n)) [
            | inl last ↦ absurd (stops-ne-continues (rw (fine, some_left, last) at e))
            | inr further ↦
                let grown : p.accumulated ++ page ≡ q.accumulated =
                  ap (λ (x : PageState). x.accumulated)
                    (continues-eq (rw (fine, some_left, further) at e)) in
                rw (← grown) (omega (arith, length-append p.accumulated page))
          ]
  ]
]

module _ (c : Client) (from : ℕ) where
  fetch_page-grows :
      (p q : PageState)
      → ((k : Option ℕ) (f : ℕ) (body : RpcBody)
          → (with_retry c.max_attempts (c.request from k) f).0 ≡ answered body
          → IsReadable c.empty body)
      → fetch_page c from p ≡ continues q
      → length p.accumulated < length q.accumulated
  fetch_page-grows p q h e =
      by_answer (with_retry c.max_attempts (c.request from p.active_cursor) p.failures) refl
    where
      by_answer :
          (o : Answer RpcBody × ℕ)
          → with_retry c.max_attempts (c.request from p.active_cursor) p.failures ≡ o
          → length p.accumulated < length q.accumulated
      by_answer (answered body, f) is =
          take_page-grows c.empty c.page_size body (record p { failures = f }) q
            (h p.active_cursor p.failures body (ap (λ x. x.0) is))
            (sym (fetch_page-answered c from p body f is) ∙ e)
      by_answer (thrown x, f) is =
          absurd (stops-ne-continues (sym (fetch_page-thrown c from p x f is) ∙ e))

  fetch_pages-ends :
      (fuel : ℕ) (p : PageState)
      → ((k : Option ℕ) (f : ℕ) (body : RpcBody)
          → (with_retry c.max_attempts (c.request from k) f).0 ≡ answered body
          → IsReadable c.empty body)
      → max_events - length p.accumulated < fuel
      → (r : PageState) × (fetch_pages fuel c from p ≡ some r)
  unfolding fetch_pages
  fetch_pages-ends zero p h enough = absurd (omega arith)
  fetch_pages-ends (suc fuel) p h enough =
      elim (Bool-cases (ltb (length p.accumulated) max_events)) [
        | inr full ↦ (p, rw (full, fetch_pages) refl)
        | inl room ↦
            by_round room (λ q more. fetch_pages-ends fuel q h more) (fetch_page c from p) refl
      ]
    where
      by_round :
          ltb (length p.accumulated) max_events ≡ true
          → ((q : PageState)
              → max_events - length q.accumulated < fuel
              → (r : PageState) × (fetch_pages fuel c from q ≡ some r))
          → (o : Round) → fetch_page c from p ≡ o
          → (r : PageState) × (fetch_pages (suc fuel) c from p ≡ some r)
      by_round room rest (stops q) is = (q, rw (room, is, fetch_pages) refl)
      by_round room rest (continues q) is =
          let grown = fetch_page-grows p q h is in
          let under : length p.accumulated < max_events = ground arith in
          let (r, ended) = rest q (omega arith) in (r, rw (room, is, fetch_pages) ended)

  -- Where every page that holds something holds an event that can be read, `getEvents` ends within
  -- one round more than the number of events allowed, whatever fails.
  pub get_events-ends :
      (cursor : Option ℕ) (failures : ℕ)
      → ((k : Option ℕ) (f : ℕ) (body : RpcBody)
          → (with_retry c.max_attempts (c.request from k) f).0 ≡ answered body
          → IsReadable c.empty body)
      → (r : PageState) × (get_events (suc max_events) c from cursor failures ≡ some r)
  unfolding get_events
  get_events-ends cursor failures h =
      fetch_pages-ends (suc max_events) (first_state cursor from failures) h (omega arith)
