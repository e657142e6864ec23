-- ===== src/Idempotency/Tests.antt =====
-- Idempotency keys on a function from the key and the user to the row.
use stow.Prelude.{
  ℕ, ◌≡◌, refl, Option, none, some, List, [], ◌∷◌, arith, ltb, ◌==◌, ◌&&◌, if◌then◌else◌,
}
use stow.Prelude.Result.{ok, err, conflict, unprocessable}
use stow.Idempotency.{
  IdempotencyKey, update_row, drop_row, KeyTable, Keys, runs, replays, acquire, claim_key, begin,
  complete,
}
use stow.Idempotency.Fresh.{KeyCall, begins, releases, cleans, steps, IsFresh}
use stow.Idempotency.Once.{runs_once, completed_once}

abbrev row_function : KeyTable
row_function = record {
  Store = ℕ → ℕ → Option IdempotencyKey;
  find = λ k u s. s k u;
  insert = λ r s k u. if k == r.key && u == r.user_id then some r else s k u;
  update = λ id code body s k u. update_row id code body (s k u);
  delete = λ id s k u. drop_row (λ r. r.id == id) (s k u);
  delete_before = λ at s k u. drop_row (λ r. ltb r.created_at at) (s k u);
  find-insert = λ k u r s free. refl;
  find-update = λ k u id code body s. refl;
  find-delete = λ k u id s. refl;
  find-delete_before = λ k u at s. refl;
}

abbrev no_keys : Keys row_function
no_keys = record { rows = λ k u. none; next_id = 1 }

no_keys-IsFresh : IsFresh row_function 100 no_keys
no_keys-IsFresh = record {
  below = λ k u r found. absurd (ground arith);
  distinct = λ k u k' u' r r' found other e. absurd (ground arith);
}

first_runs : (begin row_function 100 10 (some 20) 7 31 no_keys).0 ≡ ok (runs 1)
unfolding begin acquire claim_key
first_runs = refl

-- Another user comes in with the same key, and the expired keys are removed.
abbrev between : List KeyCall
between = begins 20 (some 20) 8 32 ∷ cleans 30 ∷ releases 2 ∷ []

runs_once_example :
    let since =
      steps row_function 100 between (begin row_function 100 10 (some 20) 7 31 no_keys).1 in
    begin row_function 100 40 (some 20) 7 31 since
    ≡ ((if 31 == 31 then err conflict else err unprocessable), since)
runs_once_example =
    runs_once row_function 100 10 40 20 7 31 31 1 between no_keys no_keys-IsFresh first_runs
      (omega arith, (omega arith, ((λ e. cc), tt))) (omega arith)

completed_once_example :
    let ended =
      complete row_function 100 1 201 55
        (steps row_function 100 between (begin row_function 100 10 (some 20) 7 31 no_keys).1) in
    let since = steps row_function 100 [] ended in
    begin row_function 100 40 (some 20) 7 31 since ≡ (ok (replays (some 55)), since)
completed_once_example =
    completed_once row_function 100 10 40 20 7 31 1 201 55 between [] no_keys no_keys-IsFresh
      first_runs (omega arith, (omega arith, ((λ e. cc), tt))) tt (omega arith)
