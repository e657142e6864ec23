-- ===== src/RateLimit/Tests.antt =====
-- The theorem at a concrete input.
use stow.Prelude.{◌≤◌, ◌≡◌, refl, none, some, List, [], ◌∷◌, arith}
use stow.RateLimit.{LimitConfig, Entries, use_limit, cleanup}
use stow.RateLimit.Admitted.{Event, request, cleans, admitted, admitted-bounds}

-- Two requests in a window of 100.
abbrev config : LimitConfig
config = record { limit = some 2; window_ms = some 100 }

abbrev no_entries : Entries
no_entries = λ k. none

abbrev requests : List Event
requests =
    request 7 10 ∷ request 7 20 ∷ request 8 25 ∷ request 7 30 ∷ cleans 60 ∷ request 7 110 ∷ []

admitted-bounds_example :
    (admitted config 7 requests no_entries ≤ 4)
    × (no_entries 7 ≡ none → admitted config 7 requests no_entries ≤ 2)
admitted-bounds_example =
    admitted-bounds config 7 10 requests no_entries
      (omega arith, (omega arith, (omega arith, (omega arith, (omega arith, (omega arith, tt))))))
      (omega arith, (omega arith, (omega arith, (omega arith, (omega arith, (omega arith, tt))))))

two_pass : admitted config 7 requests no_entries ≡ 2
unfolding use_limit cleanup
two_pass = refl
