-- ===== src/RateLimit.antt =====
-- backend/src/common/middleware/rate-limit.middleware.ts: requests counted for each client in
-- windows. The map of the entries is a function from the client's identifier, a text given by its
-- index; the statistics, which count its entries, are left out.
pub mod Admitted
mod Tests
use stow.Prelude.{ℕ, ◌+◌, ◌-◌, ◌/◌, Option, none, some, ltb, ◌==◌, max, if◌then◌else◌}

pub record RateLimitEntry : Type 0 where
  pub count : ℕ
  pub reset_time : ℕ

abbrev pub Entries : Type 0
Entries = ℕ → Option RateLimitEntry

-- RATE_LIMIT_MIDDLEWARE_LIMIT and RATE_LIMIT_MIDDLEWARE_WINDOW_MS
pub record LimitConfig : Type 0 where
  pub limit : Option ℕ
  pub window_ms : Option ℕ

abbrev pub default_limit : LimitConfig → ℕ
default_limit c = elim (c.limit) [ none ↦ 1_000 | some n ↦ n ]

abbrev pub default_window : LimitConfig → ℕ
default_window c = elim (c.window_ms) [ none ↦ 60_000 | some n ↦ n ]

-- X-RateLimit-Limit, X-RateLimit-Remaining and X-RateLimit-Reset
pub record LimitHeaders : Type 0 where
  pub limit : ℕ
  pub remaining : ℕ
  pub reset_seconds : ℕ

-- `next()`, or status 429 with Retry-After
pub data Verdict : Type 0 where
  passes : LimitHeaders → Verdict
  too_many_requests : LimitHeaders → ℕ → Verdict

-- `Math.ceil(ms / 1000)`
abbrev pub seconds_of : ℕ → ℕ
seconds_of ms = (ms + 999) / 1000

-- `getIdentifier`: the first part of X-Forwarded-For, the request's address or that of its socket;
-- `unknown` is the text 'unknown'.
abbrev pub get_identifier : ℕ → Option ℕ → Option ℕ → Option ℕ → ℕ
get_identifier unknown (some forwarded) ip remote = forwarded
get_identifier unknown none (some ip) remote = ip
get_identifier unknown none none (some remote) = remote
get_identifier unknown none none none = unknown

-- The entry that a request finds, or that is made for it.
abbrev pub entry_for : ℕ → ℕ → Option RateLimitEntry → RateLimitEntry
entry_for window now none = record { count = 0; reset_time = now + window }
entry_for window now (some e) =
    if ltb e.reset_time now then record { count = 0; reset_time = now + window } else e

abbrev pub set_entry : ℕ → RateLimitEntry → Entries → Entries
set_entry k e s = λ j. if j == k then some e else s j

abbrev pub verdict : ℕ → ℕ → RateLimitEntry → Verdict
verdict limit now e =
    let headers : LimitHeaders = record {
      limit = limit;
      remaining = max 0 (limit - e.count);
      reset_seconds = seconds_of e.reset_time;
    } in
    if ltb limit e.count
    then too_many_requests headers (seconds_of (e.reset_time - now))
    else passes headers

-- `use`, for a request with this identifier at the time `now`
unfoldable pub use_limit : LimitConfig → ℕ → ℕ → Entries → Verdict × Entries
use_limit c k now s =
    let e = entry_for (default_window c) now (s k) in
    let counted : RateLimitEntry = record e { count = e.count + 1 } in
    (verdict (default_limit c) now counted, set_entry k counted s)

abbrev pub kept_entry : ℕ → Option RateLimitEntry → Option RateLimitEntry
kept_entry now none = none
kept_entry now (some e) = if ltb e.reset_time now then none else some e

-- `cleanup`
unfoldable pub cleanup : ℕ → Entries → Entries
cleanup now s = λ k. kept_entry now (s k)

-- `clear`
abbrev pub clear : Entries → Entries
clear s = λ k. none
