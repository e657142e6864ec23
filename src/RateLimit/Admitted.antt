-- ===== src/RateLimit/Admitted.antt =====
-- How many requests of a client pass.
use mathlib.Core.Path.{subst}
use stow.Prelude.{
  ==_refl, ℕ, ◌+◌, ◌-◌, ◌*◌, ◌≤◌, ◌≡◌, ap, inl, inr, false, Option, none, some, List, [], ◌∷◌, All,
  arith, leb, ◌==◌, ==_iff, Bool-cases, if◌then◌else◌,
}
use stow.RateLimit.{
  RateLimitEntry, Entries, LimitConfig, default_limit, default_window, Verdict, passes,
  too_many_requests, entry_for, verdict, use_limit, kept_entry, cleanup,
}

-- A request of a client, or the timer's cleanup, at a time.
pub data Event : Type 0 where
  request : ℕ → ℕ → Event
  cleans : ℕ → Event

abbrev pub time_of : Event → ℕ
time_of (request k now) = now
time_of (cleans now) = now

abbrev pub is_pass : Verdict → ℕ
is_pass (passes h) = 1
is_pass (too_many_requests h s) = 0

module _ (c : LimitConfig) where
  abbrev pub after : Event → Entries → Entries
  after (request k now) s = (use_limit c k now s).1
  after (cleans now) s = cleanup now s

  -- 1 for a request of the client `k` that passes.
  abbrev pub passed : ℕ → Event → Entries → ℕ
  passed k (request j now) s = if j == k then is_pass (use_limit c j now s).0 else 0
  passed k (cleans now) s = 0

  -- The requests of the client `k` that pass, of events one after the other.
  abbrev pub admitted : ℕ → List Event → Entries → ℕ
  admitted k [] s = 0
  admitted k (e ∷ es) s = passed k e s + admitted k es (after e s)

  -- What may still pass up to the time `end`.
  allowance : ℕ → Option RateLimitEntry → ℕ
  allowance end none = default_limit c
  allowance end (some e) =
      if leb end e.reset_time
      then default_limit c - e.count
      else default_limit c - e.count + default_limit c

  counted_lem :
      (start now : ℕ) (o : Option RateLimitEntry)
      → start ≤ now
      → now ≤ start + default_window c
      → let e = entry_for (default_window c) now o in
        let counted : RateLimitEntry = record e { count = e.count + 1 } in
        is_pass (verdict (default_limit c) now counted)
          + allowance (start + default_window c) (some counted)
        ≤ allowance (start + default_window c) o
  unfolding allowance
  counted_lem start now none early late = ground arith
  counted_lem start now (some e) early late = ground arith

  own_lem :
      (k start now : ℕ) (s : Entries)
      → start ≤ now
      → now ≤ start + default_window c
      → passed k (request k now) s
          + allowance (start + default_window c) (after (request k now) s k)
        ≤ allowance (start + default_window c) (s k)
  unfolding use_limit
  own_lem k start now s early late = rw (==_refl k) (counted_lem start now (s k) early late)

  other_lem :
      (k j start now : ℕ) (s : Entries)
      → (j == k) ≡ false
      → passed k (request j now) s
          + allowance (start + default_window c) (after (request j now) s k)
        ≤ allowance (start + default_window c) (s k)
  unfolding use_limit
  other_lem k j start now s other =
      let back : (k == j) ≡ false = ground (arith, ==_iff j k, ==_iff k j) in
      rw (other, back) (omega arith)

  cleanup_lem :
      (start now : ℕ) (o : Option RateLimitEntry)
      → now ≤ start + default_window c
      → allowance (start + default_window c) (kept_entry now o)
        ≤ allowance (start + default_window c) o
  unfolding allowance
  cleanup_lem start now none late = omega arith
  cleanup_lem start now (some e) late = ground arith

  event_lem :
      (k start : ℕ) (e : Event) (s : Entries)
      → start ≤ time_of e
      → time_of e ≤ start + default_window c
      → passed k e s + allowance (start + default_window c) (after e s k)
        ≤ allowance (start + default_window c) (s k)
  unfolding cleanup
  event_lem k start (cleans now) s early late = omega (arith, cleanup_lem start now (s k) late)
  event_lem k start (request j now) s early late = elim (Bool-cases (j == k)) [
    | inl same ↦
        subst
          (λ x.
            passed x (request j now) s
              + allowance (start + default_window c) (after (request j now) s x)
            ≤ allowance (start + default_window c) (s x))
          ((==_iff j k).0 same) (own_lem j start now s early late)
    | inr other ↦ other_lem k j start now s other
  ]

  allowance_bound : (end : ℕ) (o : Option RateLimitEntry) → allowance end o ≤ 2 * default_limit c
  unfolding allowance
  allowance_bound end none = omega arith
  allowance_bound end (some e) = ground arith

  admitted_lem :
      (k start : ℕ) (es : List Event) (s : Entries)
      → All (λ e. start ≤ time_of e) es
      → All (λ e. time_of e ≤ start + default_window c) es
      → admitted k es s ≤ allowance (start + default_window c) (s k)
  admitted_lem k start [] s early late = omega arith
  admitted_lem k start (e ∷ es) s early late = omega (
    arith,
    event_lem k start e s early.0 late.0,
    admitted_lem k start es (after e s) early.1 late.1,
  )

  -- Within any span of one window, of whatever requests of all clients and cleanups, in any state
  -- of the entries, at most twice the limit of requests of one client pass, and at most the limit
  -- where the client has no entry at first.
  pub admitted-bounds :
      (k start : ℕ) (es : List Event) (s : Entries)
      → All (λ e. start ≤ time_of e) es
      → All (λ e. time_of e ≤ start + default_window c) es
      → (admitted k es s ≤ 2 * default_limit c) × (s k ≡ none → admitted k es s ≤ default_limit c)
  unfolding allowance
  admitted-bounds k start es s early late =
      let h = admitted_lem k start es s early late in
      (
        omega (arith, h, allowance_bound (start + default_window c) (s k)),
        λ free. omega (arith, h, ap (allowance (start + default_window c)) free),
      )
