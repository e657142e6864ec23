-- ===== src/Webhooks/Waiting.antt =====
-- When a delivery is attempted again.
use native.Mathlib.Nat.{one-le-pow}
use stow.Prelude.{
  ℕ, ◌+◌, ◌-◌, ◌^◌, ◌≤◌, ◌<◌, ◌≡◌, ◌≢◌, sym, ap, ◌∙◌, inl, inr, Bool, true, false, none, some, List,
  [], ◌∷◌, All, arith, leb, ltb, ==_iff, Bool-cases, some-eq, ◌&&◌,
}
use stow.Webhooks.{
  backoff, schedule_retry, deliver, attempted, is_due, attempt_delivery, attempt_due,
  process_pending_deliveries,
}
use stow.Webhooks.State.{
  pending, success, failed, DeliveryLog, Endpoint, Outcome, responds, throws, WebhookStores,
  Webhooks,
}

-- What the code takes for a delivery: a status code from 200 to 299.
abbrev pub is_delivery : Outcome → Bool
is_delivery (responds code) = leb 200 code && ltb code 300
is_delivery (throws _ _) = false

backoff-bounds : (attempt : ℕ) → (1000 ≤ backoff attempt) × (backoff attempt ≤ 3_600_000)
backoff-bounds attempt =
    let grows : 1 ≤ 2 ^ (attempt - 1) = one-le-pow (attempt - 1) 2 (omega arith) in
    (omega arith, omega arith)

-- An attempt of a pending delivery. One that delivers is stored as a success, and the endpoint's
-- count of failures starts again at 0. One that does not is counted against the endpoint; if it
-- was the last one allowed the delivery has failed and waits for no date; otherwise it stays
-- pending, and the next attempt is due between a second and an hour later.
pub attempted_lem :
    (max_attempts now : ℕ) (o : Outcome) (l : DeliveryLog) (p : Endpoint)
    → l.status ≡ pending
    → let (l', p') = attempted max_attempts now o l p in
      (l'.attempt_count ≡ l.attempt_count + 1)
      × (is_delivery o ≡ true → (l'.status ≡ success) × (p'.failure_count ≡ 0))
      × (is_delivery o ≡ false → p'.failure_count ≡ p.failure_count + 1)
      × (is_delivery o ≡ false
          → max_attempts ≤ l.attempt_count + 1
          → (l'.status ≡ failed) × (l'.next_retry_at ≡ none))
      × (is_delivery o ≡ false
          → l.attempt_count + 1 < max_attempts
          → (l'.status ≡ pending)
            × ((at : ℕ) × (l'.next_retry_at ≡ some at)
                × (now + 1000 ≤ at)
                × (at ≤ now + 3_600_000)))
unfolding attempted deliver schedule_retry
attempted_lem n now (responds code) l p is =
    let bound : (now + 1000 ≤ now + backoff (l.attempt_count + 1))
        × (now + backoff (l.attempt_count + 1) ≤ now + 3_600_000) =
      (
        omega (arith, backoff-bounds (l.attempt_count + 1)),
        omega (arith, backoff-bounds (l.attempt_count + 1)),
      ) in
    (
      ground arith,
      (λ d. ground arith),
      (λ d. ground arith),
      (λ d last. ground arith),
      (λ d left.
          (ground arith, (now + backoff (l.attempt_count + 1), ground arith, bound.0, bound.1))),
    )
attempted_lem n now (throws m none) l p is =
    let bound : (now + 1000 ≤ now + backoff (l.attempt_count + 1))
        × (now + backoff (l.attempt_count + 1) ≤ now + 3_600_000) =
      (
        omega (arith, backoff-bounds (l.attempt_count + 1)),
        omega (arith, backoff-bounds (l.attempt_count + 1)),
      ) in
    (
      ground arith,
      (λ d. ground arith),
      (λ d. ground arith),
      (λ d last. ground arith),
      (λ d left.
          (ground arith, (now + backoff (l.attempt_count + 1), ground arith, bound.0, bound.1))),
    )
attempted_lem n now (throws m (some c)) l p is =
    let bound : (now + 1000 ≤ now + backoff (l.attempt_count + 1))
        × (now + backoff (l.attempt_count + 1) ≤ now + 3_600_000) =
      (
        omega (arith, backoff-bounds (l.attempt_count + 1)),
        omega (arith, backoff-bounds (l.attempt_count + 1)),
      ) in
    (
      ground arith,
      (λ d. ground arith),
      (λ d. ground arith),
      (λ d last. ground arith),
      (λ d left.
          (ground arith, (now + backoff (l.attempt_count + 1), ground arith, bound.0, bound.1))),
    )

module _ (t : WebhookStores) (max_attempts : ℕ) where
  not_due :
      (now later : ℕ) (x : DeliveryLog)
      → x.next_retry_at ≡ some later
      → now < later
      → is_due now x.next_retry_at ≡ true
      → ⊥
  not_due now later x at le due = ground arith

  saved_id :
      (now : ℕ) (o : Outcome) (x : DeliveryLog) (p : Endpoint)
      → (attempted max_attempts now o x p).0.id ≡ x.id
  unfolding attempted deliver schedule_retry
  saved_id now (responds code) x p = ground arith
  saved_id now (throws m none) x p = ground arith
  saved_id now (throws m (some c)) x p = ground arith

  kept :
      (now k : ℕ) (o : Outcome) (x : DeliveryLog) (p : Endpoint) (s : t.logs.Store)
      (l : DeliveryLog)
      → k ≢ x.id
      → t.logs.find_one k s ≡ some l
      → t.logs.find_one k (t.logs.save (attempted max_attempts now o x p).0 s) ≡ some l
  kept now k o x p s l other found = ground (
    arith,
    t.logs.find_one-save k (attempted max_attempts now o x p).0 s,
    saved_id now o x p,
    ==_iff k (attempted max_attempts now o x p).0.id,
  )

  attempt_due_later :
      (now later k : ℕ) (post : DeliveryLog → Endpoint → Outcome)
      (xs : List (DeliveryLog × Endpoint)) (s : Webhooks t) (l : DeliveryLog)
      → All (λ x. (k ≡ x.0.id → x.0 ≡ l)) xs
      → l.next_retry_at ≡ some later
      → now < later
      → t.logs.find_one k s.logs ≡ some l
      → t.logs.find_one k (attempt_due t max_attempts now post xs s).logs ≡ some l
  unfolding attempt_due attempt_delivery
  attempt_due_later now later k post [] s l only at le found = found
  attempt_due_later now later k post ((x, p) ∷ xs) s l only at le found =
      elim (Bool-cases (is_due now x.next_retry_at)) [
        | inr waits ↦
            rw (waits, attempt_due) (attempt_due_later now later k post xs s l only.1 at le found)
        | inl due ↦
            let other : k ≢ x.id = λ same.
              not_due now later x (ap (λ (y : DeliveryLog). y.next_retry_at) (only.0 same) ∙ at) le
                due in
            rw (due, attempt_due)
              (attempt_due_later now later k post xs
                (attempt_delivery t max_attempts now post x p s) l only.1 at le
                (kept now k (post x p) x p s.logs l other found))
      ]

  -- The pending rows that were loaded: the one with the identifier of `l` is `l`.
  only_one :
      (k : ℕ) (xs : List (DeliveryLog × Endpoint)) (s : t.logs.Store) (l : DeliveryLog)
      → t.logs.find_one k s ≡ some l
      → All (λ x. t.logs.find_one x.0.id s ≡ some x.0) xs
      → All (λ x. (k ≡ x.0.id → x.0 ≡ l)) xs
  only_one k [] s l found f = tt
  only_one k (x ∷ xs) s l found f = (
    (λ same. some-eq (sym f.0 ∙ ap (λ j. t.logs.find_one j s) (sym same) ∙ found)),
    only_one k xs s l found f.1,
  )

  -- A run over the pending deliveries leaves every delivery whose next attempt is due later as it
  -- was.
  pub process_pending_deliveries_later :
      (now later k : ℕ) (post : DeliveryLog → Endpoint → Outcome) (s : Webhooks t) (l : DeliveryLog)
      → t.logs.find_one k s.logs ≡ some l
      → l.next_retry_at ≡ some later
      → now < later
      → t.logs.find_one k (process_pending_deliveries t max_attempts now post s).logs ≡ some l
  unfolding process_pending_deliveries
  process_pending_deliveries_later now later k post s l found at le =
      let xs = t.find_pending s.logs s.endpoints in
      attempt_due_later now later k post xs s l
        (only_one k xs s.logs l found (t.find_pending-find_one s.logs s.endpoints)) at le found
