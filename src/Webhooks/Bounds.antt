-- ===== src/Webhooks/Bounds.antt =====
-- How often a delivery is attempted, and how it ends.
use mathlib.Core.Path.{subst}
use stow.Prelude.{
  ℕ, ◌≤◌, ◌<◌, ◌≡◌, ◌≢◌, refl, sym, ◌∙◌, inl, inr, none, some, List, [], ◌∷◌, All, select, arith,
  ◌==◌, Bool-cases, some-eq,
}
use stow.Webhooks.{
  schedule_retry, deliver, attempted, is_due, includes, create_delivery_log, create_all, emit,
  attempt_delivery, attempt_due, process_pending_deliveries,
}
use stow.Webhooks.State.{
  pending, success, failed, DeliveryLog, Endpoint, Outcome, responds, throws, WebhookStores,
  Webhooks,
}

-- A pending delivery has attempts left, a failed one has had them all and waits for nothing, and a
-- successful one has its time.
pub record IsBounded (max_attempts : ℕ) (l : DeliveryLog) : Type 0 where
  pub at_most : l.attempt_count ≤ max_attempts
  pub has_left : l.status ≡ pending → l.attempt_count < max_attempts
  pub used_up : l.status ≡ failed → (l.attempt_count ≡ max_attempts) × (l.next_retry_at ≡ none)
  pub timed : l.status ≡ success → l.delivered_at ≢ none

attempted-IsBounded :
    (max_attempts now : ℕ) (o : Outcome) (l : DeliveryLog) (p : Endpoint)
    → l.status ≡ pending
    → IsBounded max_attempts l
    → IsBounded max_attempts (attempted max_attempts now o l p).0
unfolding attempted deliver schedule_retry
attempted-IsBounded n now (responds code) l p is h =
    let left = h.has_left is in
    record {
      at_most = ground arith;
      has_left = ground arith;
      used_up = ground arith;
      timed = ground arith;
    }
attempted-IsBounded n now (throws m none) l p is h =
    let left = h.has_left is in
    record {
      at_most = ground arith;
      has_left = ground arith;
      used_up = ground arith;
      timed = ground arith;
    }
attempted-IsBounded n now (throws m (some c)) l p is h =
    let left = h.has_left is in
    record {
      at_most = ground arith;
      has_left = ground arith;
      used_up = ground arith;
      timed = ground arith;
    }

-- The calls of the dispatcher: an event that is emitted, and a run over the pending deliveries.
pub data WebhookCall : Type 0 where
  emits : ℕ → ℕ → ℕ → WebhookCall
  processes : ℕ → (DeliveryLog → Endpoint → Outcome) → WebhookCall

module _ (t : WebhookStores) (max_attempts : ℕ) where
  abbrev pub AllBounded : Webhooks t → Type 0
  AllBounded s =
      (k : ℕ) (l : DeliveryLog) → t.logs.find_one k s.logs ≡ some l → IsBounded max_attempts l

  abbrev pub run : WebhookCall → Webhooks t → Webhooks t
  run (emits now event_type payload) s = emit t max_attempts now event_type payload s
  run (processes now post) s = process_pending_deliveries t max_attempts now post s

  abbrev pub runs : List WebhookCall → Webhooks t → Webhooks t
  runs [] s = s
  runs (q ∷ qs) s = runs qs (run q s)

  save-IsBounded :
      (l : DeliveryLog) (s : t.logs.Store)
      → IsBounded max_attempts l
      → ((k : ℕ) (x : DeliveryLog) → t.logs.find_one k s ≡ some x → IsBounded max_attempts x)
      → (k : ℕ) (x : DeliveryLog) → t.logs.find_one k (t.logs.save l s) ≡ some x
      → IsBounded max_attempts x
  save-IsBounded l s new old k x found = elim (Bool-cases (k == l.id)) [
    | inl same ↦
        subst (IsBounded max_attempts)
          (some-eq (sym (t.logs.find_one-save k l s ∙ rw same refl) ∙ found)) new
    | inr other ↦ old k x (sym (t.logs.find_one-save k l s ∙ rw other refl) ∙ found)
  ]

  create_all-AllBounded :
      (now event_type payload : ℕ) (ps : List Endpoint) (s : Webhooks t)
      → 0 < max_attempts
      → AllBounded s
      → AllBounded (create_all t max_attempts now event_type payload ps s)
  unfolding create_all create_delivery_log
  create_all-AllBounded now event_type payload [] s n h = h
  create_all-AllBounded now event_type payload (p ∷ ps) s n h =
      create_all-AllBounded now event_type payload ps
        (create_delivery_log t max_attempts now event_type payload p s) n
        (save-IsBounded _ s.logs
          (record {
            at_most = omega arith;
            has_left = λ _. n;
            used_up = λ e. absurd (ground arith);
            timed = λ e. absurd (ground arith);
          })
          h)

  attempt_due-AllBounded :
      (now : ℕ) (post : DeliveryLog → Endpoint → Outcome) (xs : List (DeliveryLog × Endpoint))
      (s : Webhooks t)
      → All (λ x. x.0.status ≡ pending) xs
      → All (λ x. IsBounded max_attempts x.0) xs
      → AllBounded s
      → AllBounded (attempt_due t max_attempts now post xs s)
  unfolding attempt_due attempt_delivery
  attempt_due-AllBounded now post [] s is b h = h
  attempt_due-AllBounded now post ((l, p) ∷ xs) s is b h =
      elim (Bool-cases (is_due now l.next_retry_at)) [
        | inl due ↦
            rw (due, attempt_due)
              (attempt_due-AllBounded now post xs (attempt_delivery t max_attempts now post l p s)
                is.1 b.1
                (save-IsBounded _ s.logs
                  (attempted-IsBounded max_attempts now (post l p) l p is.0 b.0) h))
        | inr waits ↦ rw (waits, attempt_due) (attempt_due-AllBounded now post xs s is.1 b.1 h)
      ]

  loaded-IsBounded :
      (s : Webhooks t) (xs : List (DeliveryLog × Endpoint))
      → AllBounded s
      → All (λ x. t.logs.find_one x.0.id s.logs ≡ some x.0) xs
      → All (λ x. IsBounded max_attempts x.0) xs
  loaded-IsBounded s [] h f = tt
  loaded-IsBounded s (x ∷ xs) h f = (h x.0.id x.0 f.0, loaded-IsBounded s xs h f.1)

  run-AllBounded :
      (q : WebhookCall) (s : Webhooks t) → 0 < max_attempts → AllBounded s → AllBounded (run q s)
  unfolding emit process_pending_deliveries
  run-AllBounded (emits now event_type payload) s n h =
      create_all-AllBounded now event_type payload
        (select (λ p. includes event_type p.event_types) (t.find_active s.endpoints)) s n h
  run-AllBounded (processes now post) s n h =
      attempt_due-AllBounded now post (t.find_pending s.logs s.endpoints) s
        (t.find_pending-pending s.logs s.endpoints)
        (loaded-IsBounded s (t.find_pending s.logs s.endpoints) h
          (t.find_pending-find_one s.logs s.endpoints))
        h

  -- With at least one attempt allowed, and starting from logs that are so, after any events and
  -- any runs, whatever the endpoints answer: no log has had more attempts than allowed, a pending
  -- one has attempts left, a failed one has had them all and has no further date, and a
  -- successful one has its time of delivery.
  pub runs-AllBounded :
      (qs : List WebhookCall) (s : Webhooks t)
      → 0 < max_attempts
      → AllBounded s
      → AllBounded (runs qs s)
  runs-AllBounded [] s n h = h
  runs-AllBounded (q ∷ qs) s n h = runs-AllBounded qs (run q s) n (run-AllBounded q s n h)
