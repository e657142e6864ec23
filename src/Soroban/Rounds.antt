-- ===== src/Soroban/Rounds.antt =====
-- The rounds of the loop over the pages.
use stow.Prelude.{
  ℕ, suc, ◌<◌, ◌≡◌, refl, ap, Bool, true, false, Option, some, length, arith, ltb, ◌++◌, ◌==◌, ◌||◌,
}
use stow.Events.{EventData}
use stow.Soroban.{
  RpcBody, PageState, stops, continues, response_cursor, or_kept, or_latest, has_ledger_from,
  take_page, Client, on_answer, fetch_page, fetch_pages, max_events,
}
use stow.Soroban.Normal.{normalize_all}
use stow.Soroban.Calls.{RpcError, answered, thrown, with_retry}

module _ (empty : EventData) (n : ℕ) (body : RpcBody) (p : PageState) where
  -- The state after a page with events.
  abbrev pub seen : PageState
  seen = record p {
    accumulated = p.accumulated ++ normalize_all empty body.events;
    latest_ledger = or_latest body.latest_ledger p.latest_ledger;
    active_cursor =
        or_kept (response_cursor body.cursor (normalize_all empty body.events)) p.active_cursor;
    last_cursor =
        or_kept (response_cursor body.cursor (normalize_all empty body.events)) p.last_cursor;
  }

  -- The loop stops after this page.
  abbrev pub is_last : Bool
  is_last =
      has_ledger_from (or_latest body.latest_ledger p.latest_ledger)
        (normalize_all empty body.events)
      || ltb (length body.events) n

  pub take_page-empty :
      body.is_failure ≡ false
      → (length body.events == 0) ≡ true
      → take_page empty n body p
        ≡ stops (record p { latest_ledger = or_latest body.latest_ledger p.latest_ledger })
  unfolding take_page
  take_page-empty fine nothing = rw (fine, nothing, take_page) refl

  pub take_page-last :
      body.is_failure ≡ false
      → (length body.events == 0) ≡ false
      → is_last ≡ true
      → take_page empty n body p ≡ stops seen
  unfolding take_page
  take_page-last fine something last = rw (fine, something, last, take_page) refl

  pub take_page-further :
      body.is_failure ≡ false
      → (length body.events == 0) ≡ false
      → is_last ≡ false
      → take_page empty n body p ≡ continues seen
  unfolding take_page
  take_page-further fine something further = rw (fine, something, further, take_page) refl

module _ (c : Client) (from : ℕ) (p : PageState) where
  pub fetch_page-answered :
      (body : RpcBody) (failures : ℕ)
      → with_retry c.max_attempts (c.request from p.active_cursor) p.failures
        ≡ (answered body, failures)
      → fetch_page c from p ≡ take_page c.empty c.page_size body (record p { failures = failures })
  unfolding fetch_page on_answer
  fetch_page-answered body failures is = ap (on_answer c p) is

  pub fetch_page-thrown :
      (e : Option RpcError) (failures : ℕ)
      → with_retry c.max_attempts (c.request from p.active_cursor) p.failures ≡ (thrown e, failures)
      → fetch_page c from p ≡ stops (record p { failures = failures })
  unfolding fetch_page on_answer
  fetch_page-thrown e failures is = ap (on_answer c p) is

  pub fetch_pages-continues :
      (fuel : ℕ) (q : PageState)
      → length p.accumulated < max_events
      → fetch_page c from p ≡ continues q
      → fetch_pages (suc fuel) c from p ≡ fetch_pages fuel c from q
  unfolding fetch_pages
  fetch_pages-continues fuel q room is =
      let test : ltb (length p.accumulated) max_events ≡ true = ground arith in
      rw (test, is, fetch_pages) refl

  pub fetch_pages-stops :
      (fuel : ℕ) (q : PageState)
      → length p.accumulated < max_events
      → fetch_page c from p ≡ stops q
      → fetch_pages (suc fuel) c from p ≡ some q
  unfolding fetch_pages
  fetch_pages-stops fuel q room is =
      let test : ltb (length p.accumulated) max_events ≡ true = ground arith in
      rw (test, is, fetch_pages) refl

  pub fetch_pages-full :
      (fuel : ℕ)
      → ltb (length p.accumulated) max_events ≡ false
      → fetch_pages (suc fuel) c from p ≡ some p
  unfolding fetch_pages
  fetch_pages-full fuel full = rw (full, fetch_pages) refl
