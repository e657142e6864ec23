-- ===== src/Idempotency/Ends.antt =====
-- backend/src/common/idempotency/idempotency.service.ts: the recursion of `acquire`.
use stow.Prelude.{ℕ, suc, ◌≡◌, refl, ◌∙◌, inl, inr, none, ==_refl, Bool-cases, Option-cases}
use stow.Prelude.Result.{ok}
use stow.Idempotency.{
  KeyTable, Keys, AcquireResult, acquired, existing, is_expired, new_row, claim_key, acquire,
}

module _ (t : KeyTable) (ttl : ℕ) where
  acquire_free :
      (fuel now k u hash : ℕ) (s : Keys t)
      → t.find k u s.rows ≡ none
      → (a : AcquireResult) × ((acquire t ttl (suc fuel) now k u hash s).0 ≡ ok a)
  unfolding acquire claim_key
  acquire_free fuel now k u hash s free =
      (acquired (new_row t ttl s.next_id now k u hash), rw (free, acquire) refl)

  -- With a fuel of 2 or more `acquire` has an answer, the key's claim or a row that has not
  -- expired: an expired row is deleted, and then none is found.
  pub acquire_ends :
      (fuel now k u hash : ℕ) (s : Keys t)
      → (a : AcquireResult) × ((acquire t ttl (suc (suc fuel)) now k u hash s).0 ≡ ok a)
  unfolding acquire
  acquire_ends fuel now k u hash s = elim (Option-cases (t.find k u s.rows)) [
    | inl free ↦ acquire_free (suc fuel) now k u hash s free
    | inr (r, found) ↦ elim (Bool-cases (is_expired t ttl now r)) [
      | inl old ↦
          let gone : t.find k u (t.delete r.id s.rows) ≡ none =
            t.find-delete k u r.id s.rows ∙ rw (found, ==_refl r.id) refl in
          rw (found, old, acquire)
            (acquire_free fuel now k u hash (record s { rows = t.delete r.id s.rows }) gone)
      | inr young ↦ (existing r, rw (found, young, acquire) refl)
    ]
  ]
