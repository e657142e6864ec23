-- ===== src/Soroban/Retry.antt =====
-- What a retried call comes to.
use mathlib.Core.Path.{subst}
use stow.Prelude.{
  ◌==◌, ==_iff, ℕ, zero, suc, ◌+◌, ◌<◌, ◌≡◌, ◌⊎◌, refl, sym, ap, ◌∙◌, inl, inr, true, Option, none,
  some, arith, Bool-cases,
}
use stow.Soroban.Calls.{
  RpcError, is_transient_rpc_error, Attempt, returns, throws, Answer, answered, thrown, retry_from,
  with_retry,
}

module _ {A : Type 0} where
  -- The attempt failed in a way that passes.
  abbrev pub IsTransient : Attempt A → Type 0
  IsTransient (returns a) = ⊥
  IsTransient (throws e) = is_transient_rpc_error e ≡ true

  -- What the caller gets of an attempt that settles the matter, and the count of failures then.
  abbrev pub settled : Attempt A → ℕ → Answer A × ℕ
  settled (returns a) failures = (answered a, 0)
  settled (throws e) failures = (thrown (some e), failures)

  abbrev pub error_of : Attempt A → Option RpcError
  error_of (returns a) = none
  error_of (throws e) = some e

  -- The error of the last attempt before `n`.
  abbrev pub last_error : (ℕ → Attempt A) → ℕ → Option RpcError
  last_error call zero = none
  last_error call (suc n) = error_of (call n)

  -- Either some attempt within the bound is the first that is no passing failure, and it alone
  -- settles the answer: a success is returned and clears the count of consecutive failures, another
  -- failure is thrown and leaves it. Or every attempt allowed failed in passing: then the last error
  -- is thrown and the count grows by one.
  pub with_retry_lem :
      (max_attempts : ℕ) (call : ℕ → Attempt A) (failures : ℕ)
      → ((k : ℕ) × (k < max_attempts)
          × ((j : ℕ) → j < k → IsTransient (call j))
          × ¬ (IsTransient (call k))
          × (with_retry max_attempts call failures ≡ settled (call k) failures))
        ⊎ (((j : ℕ) → j < max_attempts → IsTransient (call j))
            × (with_retry max_attempts call failures
                ≡ (thrown (last_error call max_attempts), failures + 1)))
  unfolding with_retry retry_from
  with_retry_lem max_attempts call failures =
      from max_attempts 0 none (omega arith) refl (λ j p. absurd (omega arith))
    where
      retry_transient :
          (n i : ℕ) (last : Option RpcError) (o : Attempt A)
          → call i ≡ o
          → IsTransient o
          → retry_from call (suc n) i last failures
            ≡ retry_from call n (suc i) (error_of o) failures
      retry_transient n i last (returns a) is h = absurd h
      retry_transient n i last (throws e) is h = rw (is, h, retry_from) refl

      retry_settled :
          (n i : ℕ) (last : Option RpcError) (o : Attempt A)
          → call i ≡ o
          → ¬ (IsTransient o)
          → retry_from call (suc n) i last failures ≡ settled o failures
      retry_settled n i last (returns a) is h = rw (is, retry_from) refl
      retry_settled n i last (throws e) is h = elim (Bool-cases (is_transient_rpc_error e)) [
        | inl passing ↦ absurd (h passing)
        | inr lasting ↦ rw (is, lasting, retry_from) refl
      ]

      passes : (o : Attempt A) → IsTransient o ⊎ (¬ (IsTransient o))
      passes (returns a) = inr (λ h. h)
      passes (throws e) = elim (Bool-cases (is_transient_rpc_error e)) [
        | inl passing ↦ inl passing
        | inr lasting ↦ inr (λ h. ground arith)
      ]

      from :
          (n i : ℕ) (last : Option RpcError)
          → i + n ≡ max_attempts
          → last ≡ last_error call i
          → ((j : ℕ) → j < i → IsTransient (call j))
          → ((k : ℕ) × (k < max_attempts)
              × ((j : ℕ) → j < k → IsTransient (call j))
              × ¬ (IsTransient (call k))
              × (retry_from call n i last failures ≡ settled (call k) failures))
            ⊎ (((j : ℕ) → j < max_attempts → IsTransient (call j))
                × (retry_from call n i last failures
                    ≡ (thrown (last_error call max_attempts), failures + 1)))
      from zero i last all is before =
          let end : i ≡ max_attempts = omega arith in
          inr (
            (λ j p. before j (omega arith)),
            ap (λ x. (thrown x, failures + 1)) (is ∙ ap (last_error call) end),
          )
      from (suc n) i last all is before = elim (passes (call i)) [
        | inl passing ↦
            let next : (j : ℕ) → j < suc i → IsTransient (call j) = λ j p.
              elim (Bool-cases (j == i)) [
                | inl same ↦ subst (λ x. IsTransient (call x)) (sym ((==_iff j i).0 same)) passing
                | inr other ↦ before j (ground (arith, ==_iff j i))
              ] in
            rw (retry_transient n i last (call i) refl passing)
              (from n (suc i) (error_of (call i)) (omega arith) refl next)
        | inr settles ↦
            inl (i, omega arith, before, settles, retry_settled n i last (call i) refl settles)
      ]
