-- ===== src/Soroban.antt =====
-- backend/src/soroban/soroban.service.ts: the RPC client's retries, and the paging of `getEvents`.
-- The transactions and the reads of the yield adapter, which call the Stellar SDK, are left out,
-- and so are logging and the delays between attempts.
pub mod Calls
pub mod Normal
pub mod Retry
pub mod Rounds
pub mod Ends
pub mod Interrupted
mod Tests
use stow.Prelude.{
  ℕ, zero, suc, ◌+◌, ◌≡◌, min, max, Bool, true, false, not, Option, none, some, List, [], ◌∷◌, ◌++◌,
  length, leb, ltb, ◌==◌, ◌&&◌, ◌||◌, if◌then◌else◌,
}
use stow.Amounts.{empty_text}
use stow.Events.{Topic, EventData}
use stow.Indexer.State.{RpcEvent, RpcPage}
use Calls.{Answer, Attempt, RpcError, answered, thrown, with_retry}
use Normal.{RawEvent, SorobanEvent, normalize_all}

-- The body of an answer: a JSON-RPC error, or a result.
pub record RpcBody : Type 0 where
  pub is_failure : Bool
  pub events : List RawEvent
  pub latest_ledger : Option ℕ
  pub cursor : Option ℕ

-- What the loop over the pages carries.
pub record PageState : Type 0 where
  pub accumulated : List SorobanEvent
  pub active_cursor : Option ℕ
  pub latest_ledger : ℕ
  pub last_cursor : Option ℕ
  pub failures : ℕ

abbrev pub last_id : List SorobanEvent → Option ℕ
last_id [] = none
last_id (e ∷ []) = some e.id
last_id (_ ∷ e ∷ es) = last_id (e ∷ es)

-- The cursor that the body names, else the last event's identifier.
abbrev pub response_cursor : Option ℕ → List SorobanEvent → Option ℕ
response_cursor (some cursor) es = some cursor
response_cursor none es = last_id es

-- `if (responseCursor)`: the empty text leaves what was kept.
abbrev pub or_kept : Option ℕ → Option ℕ → Option ℕ
or_kept none kept = kept
or_kept (some cursor) kept = if cursor == empty_text then kept else some cursor

-- `Math.max(...ledgers) >= latest`, where the maximum of no ledgers is below every number
abbrev pub has_ledger_from : ℕ → List SorobanEvent → Bool
has_ledger_from latest [] = false
has_ledger_from latest (e ∷ es) =
    let rest = has_ledger_from latest es in leb latest e.event.ledger || rest

abbrev pub or_latest : Option ℕ → ℕ → ℕ
or_latest none latest = latest
or_latest (some ledger) latest = ledger

-- `MAX_EVENTS_PER_FETCH` and `MAX_PAGE_SIZE`
abbrev pub max_events : ℕ
max_events = 10_000

abbrev pub max_page_size : ℕ
max_page_size = 200

-- `Math.min(options.limit ?? MAX_PAGE_SIZE, MAX_PAGE_SIZE)`
abbrev pub page_size_of : Option ℕ → ℕ
page_size_of none = max_page_size
page_size_of (some limit) = min limit max_page_size

-- Whether the loop goes on.
pub data Round : Type 0 where
  stops continues : PageState → Round

-- What one page makes of the state.
unfoldable pub take_page : EventData → ℕ → RpcBody → PageState → Round
unfolding normalize_all
take_page empty page_size body p =
    let latest = or_latest body.latest_ledger p.latest_ledger in
    let page = normalize_all empty body.events in
    let cursor = response_cursor body.cursor page in
    let seen = record p {
      accumulated = p.accumulated ++ page;
      latest_ledger = latest;
      active_cursor = or_kept cursor p.active_cursor;
      last_cursor = or_kept cursor p.last_cursor;
    } in
    if body.is_failure
    then stops p
    else if length body.events == 0
    then stops (record p { latest_ledger = latest })
    else if has_ledger_from latest page || ltb (length body.events) page_size
    then stops seen
    else continues seen

-- The service's configuration, and the RPC: the outcome of each attempt of a request that has the
-- cursor, or else the start ledger.
pub record Client : Type 0 where
  pub max_attempts : ℕ
  pub page_size : ℕ
  pub empty : EventData
  pub request : ℕ → Option ℕ → ℕ → Attempt RpcBody

-- What an answer, with the count of failures, makes of the state.
pub on_answer : Client → PageState → Answer RpcBody × ℕ → Round
unfolding take_page
on_answer c p (answered body, failures) =
    take_page c.empty c.page_size body (record p { failures = failures })
on_answer c p (thrown e, failures) = stops (record p { failures = failures })

-- One round, after the test of the loop.
unfoldable pub fetch_page : Client → ℕ → PageState → Round
unfolding with_retry on_answer
fetch_page c from p =
    on_answer c p (with_retry c.max_attempts (c.request from p.active_cursor) p.failures)

-- The loop, on fuel: `none` where the fuel runs out.
unfoldable pub fetch_pages : ℕ → Client → ℕ → PageState → Option PageState
unfolding fetch_page
fetch_pages zero c from p = none
fetch_pages (suc fuel) c from p =
    let again = λ (q : PageState). fetch_pages fuel c from q in
    if ltb (length p.accumulated) max_events
    then elim (fetch_page c from p) [ stops q ↦ some q | continues q ↦ again q ]
    else some p

abbrev pub first_state : Option ℕ → ℕ → ℕ → PageState
first_state cursor from failures = record {
  accumulated = [];
  active_cursor = cursor;
  latest_ledger = from;
  last_cursor = none;
  failures = failures;
}

-- `getEvents(fromLedger, { cursor })`, where the cursor is no empty text, and the RPC's address and
-- the contract are configured
unfoldable pub get_events : ℕ → Client → ℕ → Option ℕ → ℕ → Option PageState
unfolding fetch_pages
get_events fuel c from cursor failures = fetch_pages fuel c from (first_state cursor from failures)

abbrev pub events_of : List SorobanEvent → List RpcEvent
events_of [] = []
events_of (e ∷ es) = e.event ∷ events_of es

-- The answer as its callers take it.
abbrev pub page_of_state : PageState → RpcPage
page_of_state p = record { events = events_of p.accumulated; latest_ledger = some p.latest_ledger }
