-- ===== src/Soroban/Interrupted.antt =====
-- A fetch of several pages that fails after the first.
use stow.Prelude.{
  ℕ, suc, ◌<◌, ◌≡◌, refl, ◌∙◌, false, Option, none, some, length, arith, ltb, ◌==◌, ◌||◌,
}
use stow.Indexer.{ledger_key, get_checkpoint, start_ledger, fetch_and_persist_events}
use stow.Indexer.State.{IndexerStores, Indexer}
use stow.Indexer.Fetch.{fetch-latest}
use stow.Soroban.Rounds.{
  take_page-further, fetch_page-answered, fetch_page-thrown, fetch_pages-continues,
  fetch_pages-stops,
}
use stow.Soroban.{
  stops, continues, RpcBody, PageState, response_cursor, or_kept, has_ledger_from, take_page,
  Client, fetch_page, first_state, get_events, page_of_state, max_events,
}
use stow.Soroban.Normal.{normalize_all}
use stow.Soroban.Calls.{RpcError, answered, thrown, with_retry}

-- An answer after which the loop asks for a further page.
pub record IsFullPage (c : Client) (body : RpcBody) (latest cursor : ℕ) : Type 0 where
  pub fine : body.is_failure ≡ false
  pub not_empty : (length body.events == 0) ≡ false
  pub at_latest : body.latest_ledger ≡ some latest
  pub below_tip :
      (has_ledger_from latest (normalize_all c.empty body.events)
        || ltb (length body.events) c.page_size)
      ≡ false
  pub goes_on :
      or_kept (response_cursor body.cursor (normalize_all c.empty body.events)) none ≡ some cursor
  pub has_room : length (normalize_all c.empty body.events) < max_events

module _ (c : Client) (from : ℕ) where
  full_page :
      (failures : ℕ) (body : RpcBody) (latest cursor : ℕ)
      → IsFullPage c body latest cursor
      → take_page c.empty c.page_size body (first_state none from failures)
        ≡ continues (record {
          accumulated = normalize_all c.empty body.events;
          active_cursor = some cursor;
          latest_ledger = latest;
          last_cursor = some cursor;
          failures = failures;
        })
  full_page failures body latest cursor h =
      let start = first_state none from failures in
      take_page-further c.empty c.page_size body start h.fine h.not_empty
        (rw h.at_latest h.below_tip)
      ∙ rw (h.at_latest, h.goes_on) refl

  -- Where the first page is full and below the tip, and the request for the second page fails,
  -- `getEvents` returns the first page with the RPC's latest ledger. The indexer then moves its
  -- checkpoint to that ledger: its next fetch starts after it, so events of the further pages are
  -- not asked for again.
  pub get_events_interrupted :
      (t : IndexerStores) (s : Indexer t) (fuel failures failures' failures'' : ℕ) (body : RpcBody)
      (latest cursor : ℕ) (e : Option RpcError)
      → with_retry c.max_attempts (c.request from none) failures ≡ (answered body, failures')
      → IsFullPage c body latest cursor
      → with_retry c.max_attempts (c.request from (some cursor)) failures' ≡ (thrown e, failures'')
      → (r : PageState) × (get_events (suc (suc fuel)) c from none failures ≡ some r)
        × (r.accumulated ≡ normalize_all c.empty body.events)
        × (let after = (fetch_and_persist_events t (λ _. page_of_state r) s).1 in
            latest < start_ledger t (get_checkpoint t ledger_key after.checkpoints))
  unfolding get_events
  get_events_interrupted t s fuel failures failures' failures'' body latest cursor e first h
        second =
      let page = normalize_all c.empty body.events in
      let r : PageState = record {
        accumulated = page;
        active_cursor = some cursor;
        latest_ledger = latest;
        last_cursor = some cursor;
        failures = failures'';
      } in
      let after = fetch-latest t (λ _. page_of_state r) s latest refl in
      let q : PageState = record r { failures = failures' } in
      let start = first_state none from failures in
      let one : fetch_page c from start ≡ continues q =
        fetch_page-answered c from start body failures' first
        ∙ full_page failures' body latest cursor h in
      let two : fetch_page c from q ≡ stops r = fetch_page-thrown c from q e failures'' second in
      (
        r,
        fetch_pages-continues c from start (suc fuel) q (omega arith) one
            ∙ fetch_pages-stops c from q fuel r h.has_room two,
        refl,
        ground (arith, after),
      )
