-- ===== src/Idempotency/Once.antt =====
-- backend/src/common/idempotency: a key's row while it is young, and its handler.
use mathlib.Core.Path.{subst}
use stow.Prelude.{
  ℕ, zero, suc, ◌+◌, ◌≤◌, ◌≡◌, ◌≢◌, refl, sym, ap, ◌∙◌, inl, inr, true, false, none, some, List,
  All, arith, ◌==◌, ==_iff, ==_refl, Bool-cases, Option-cases, if◌then◌else◌,
}
use stow.Prelude.Result.{Result-cases, Error, Result, ok, err, conflict, unprocessable}
use stow.Amounts.{empty_text}
use stow.Idempotency.{
  IdempotencyKey, KeyTable, Keys, AcquireResult, acquired, existing, runs, replays, is_expired,
  new_row, claim_key, acquire, decide, decided, begin, complete,
}
use stow.Idempotency.Fresh.{KeyCall, begins, completes, steps, IsFresh, decided_state, step-IsFresh}
use stow.Idempotency.Spares.{Spares, not_expired, steps-Spares}

module _ (t : KeyTable) (ttl : ℕ) where
  acquire_found :
      (fuel later k u hash : ℕ) (r : IdempotencyKey) (s : Keys t)
      → t.find k u s.rows ≡ some r
      → later ≤ r.created_at + ttl
      → acquire t ttl (suc fuel) later k u hash s ≡ (ok (existing r), s)
  unfolding acquire
  acquire_found fuel later k u hash r s found young = elim (Bool-cases (is_expired t ttl later r)) [
    | inl old ↦ absurd (not_expired t ttl later r young old)
    | inr current ↦ rw (found, current, acquire) refl
  ]

  -- A request that finds a row of its key which has not expired.
  begin_found :
      (later k u hash : ℕ) (r : IdempotencyKey) (s : Keys t)
      → k ≢ empty_text
      → t.find k u s.rows ≡ some r
      → later ≤ r.created_at + ttl
      → begin t ttl later (some k) u hash s ≡ (decide t ttl hash (existing r), s)
  unfolding begin
  begin_found later k u hash r s given found young = elim (Bool-cases (k == empty_text)) [
    | inl empty ↦ absurd (given ((==_iff k empty_text).0 empty))
    | inr other ↦
        rw (other, begin) (ap (decided t ttl hash) (acquire_found 1 later k u hash r s found young))
  ]

  claimed_row_lem :
      (now k u hash : ℕ) (r : IdempotencyKey) (s : Keys t)
      → t.find k u s.rows ≡ none
      → (claim_key t ttl now k u hash s).0 ≡ ok (acquired r)
      → (r ≡ new_row t ttl r.id now k u hash)
        × (t.find k u (claim_key t ttl now k u hash s).1.rows ≡ some r)
  unfolding claim_key
  claimed_row_lem now k u hash r s free e =
      let new = new_row t ttl s.next_id now k u hash in
      let is : new ≡ r = ap row_of e in
      (
        subst (λ x. x ≡ new_row t ttl x.id now k u hash) is refl,
        t.find-insert k u new s.rows free ∙ ground (arith, ==_iff k k, ==_iff u u) ∙ ap some is,
      )
    where
      row_of : Result AcquireResult → IdempotencyKey
      row_of (ok (acquired x)) = x
      row_of (ok (existing x)) = x
      row_of (err _) = r

  existing-ne-acquired :
      {x y : IdempotencyKey}
      → ¬ (◌≡◌ {A = Result AcquireResult} (ok (existing x)) (ok (acquired y)))
  existing-ne-acquired e = cc

  acquired_row :
      (fuel now k u hash : ℕ) (r : IdempotencyKey) (s : Keys t)
      → (acquire t ttl fuel now k u hash s).0 ≡ ok (acquired r)
      → (r ≡ new_row t ttl r.id now k u hash)
        × (t.find k u (acquire t ttl fuel now k u hash s).1.rows ≡ some r)
  unfolding acquire
  acquired_row zero now k u hash r s e = absurd (ground arith)
  acquired_row (suc fuel) now k u hash r s e = elim (Option-cases (t.find k u s.rows)) [
    | inl free ↦
        rw (free, acquire) (claimed_row_lem now k u hash r s free (rw (free, acquire) at e))
    | inr (r', found) ↦ elim (Bool-cases (is_expired t ttl now r')) [
      | inl old ↦
          rw (found, old, acquire)
            (acquired_row fuel now k u hash r (record s { rows = t.delete r'.id s.rows })
              (rw (found, old, acquire) at e))
      | inr young ↦ absurd (existing-ne-acquired (rw (found, young, acquire) at e))
    ]
  ]

  decide-runs :
      (hash id : ℕ) (a : AcquireResult)
      → decide t ttl hash a ≡ ok (runs id)
      → (r : IdempotencyKey) × (a ≡ acquired r) × (r.id ≡ id)
  decide-runs hash id (acquired r) e = (r, refl, ground arith)
  decide-runs hash id (existing r) e = absurd (ground arith)

  err-ne-ok : {A : Type 0} {x : Error} {y : A} → ¬ (err x ≡ ok y)
  err-ne-ok e = cc

  true-ne-false : ¬ (true ≡ false)
  true-ne-false e = cc

  begin-runs :
      (now k u hash id : ℕ) (s : Keys t)
      → (begin t ttl now (some k) u hash s).0 ≡ ok (runs id)
      → (k ≢ empty_text)
        × (t.find k u (begin t ttl now (some k) u hash s).1.rows
            ≡ some (new_row t ttl id now k u hash))
  unfolding begin
  begin-runs now k u hash id s e = elim (Bool-cases (k == empty_text)) [
    | inl empty ↦ absurd (ground arith)
    | inr other ↦ elim (Result-cases (acquire t ttl 2 now k u hash s).0) [
      | inl (x, failed) ↦ absurd (
          err-ne-ok (
            ap (λ y. (decided t ttl hash (y, (acquire t ttl 2 now k u hash s).1)).0) (sym failed)
            ∙ (rw (other, begin) at e)))
      | inr (a, got) ↦
          let (r, was, same) = decide-runs hash id a (
            ap (λ y. (decided t ttl hash (y, (acquire t ttl 2 now k u hash s).1)).0) (sym got)
            ∙ (rw (other, begin) at e)) in
          let (is, stored) = acquired_row 2 now k u hash r s (got ∙ ap ok was) in
          let row : r ≡ new_row t ttl id now k u hash =
            is ∙ ap (λ x. new_row t ttl x now k u hash) same in
          (
            (λ empty. true-ne-false (sym ((==_iff k empty_text).1 empty) ∙ other)),
            rw (other, begin)
                (ap (λ (x : Keys t). t.find k u x.rows)
                    (decided_state t ttl hash (acquire t ttl 2 now k u hash s).0
                      (acquire t ttl 2 now k u hash s).1)
                  ∙ stored
                  ∙ ap some row),
          )
    ]
  ]

  -- Where the rows' identifiers are distinct and below the next one: once a handler runs for a
  -- key, then, until it ends and within the time to live, a request of the same user with the same
  -- key runs no handler and changes nothing, whatever other calls came between within that time:
  -- with the same content it is a conflict, with other content it cannot be processed.
  pub runs_once :
      (now later k u hash hash' id : ℕ) (qs : List KeyCall) (s : Keys t)
      → IsFresh t ttl s
      → (begin t ttl now (some k) u hash s).0 ≡ ok (runs id)
      → All (Spares t ttl id now) qs
      → later ≤ now + ttl
      → let since = steps t ttl qs (begin t ttl now (some k) u hash s).1 in
        begin t ttl later (some k) u hash' since
        ≡ ((if hash == hash' then err conflict else err unprocessable), since)
  runs_once now later k u hash hash' id qs s h e sp young =
      let (given, stored) = begin-runs now k u hash id s e in
      let r = new_row t ttl id now k u hash in
      let (kept, _) =
        steps-Spares t ttl qs k u r (begin t ttl now (some k) u hash s).1
          (step-IsFresh t ttl (begins now (some k) u hash) s h) stored sp in
      begin_found later k u hash' r (steps t ttl qs (begin t ttl now (some k) u hash s).1) given
        kept young
      ∙ ground arith

  -- Where the rows' identifiers are distinct and below the next one: once the handler that runs for
  -- a key has ended with a body, then, within the time to live, the same request again runs no
  -- handler and changes nothing, whatever other calls came between within that time: it is answered
  -- with that body.
  pub completed_once :
      (now later k u hash id code body : ℕ) (qs qs' : List KeyCall) (s : Keys t)
      → IsFresh t ttl s
      → (begin t ttl now (some k) u hash s).0 ≡ ok (runs id)
      → All (Spares t ttl id now) qs
      → All (Spares t ttl id now) qs'
      → later ≤ now + ttl
      → let ended =
          complete t ttl id code body (steps t ttl qs (begin t ttl now (some k) u hash s).1) in
        let since = steps t ttl qs' ended in
        begin t ttl later (some k) u hash since ≡ (ok (replays (some body)), since)
  unfolding complete
  completed_once now later k u hash id code body qs qs' s h e sp sp' young =
      let (given, stored) = begin-runs now k u hash id s e in
      let first = (begin t ttl now (some k) u hash s).1 in
      let r = new_row t ttl id now k u hash in
      let (kept, fresh) =
        steps-Spares t ttl qs k u r first (step-IsFresh t ttl (begins now (some k) u hash) s h)
          stored sp in
      let ended = complete t ttl id code body (steps t ttl qs first) in
      let r' : IdempotencyKey = record r {
        status_code = some code;
        response_body = some body;
        in_progress = false;
      } in
      let answer : t.find k u ended.rows ≡ some r' =
        t.find-update k u id code body (steps t ttl qs first).rows ∙ rw (kept, ==_refl id) refl in
      let (kept', _) =
        steps-Spares t ttl qs' k u r' ended
          (step-IsFresh t ttl (completes id code body) (steps t ttl qs first) fresh) answer sp' in
      begin_found later k u hash r' (steps t ttl qs' ended) given kept' young
      ∙ rw (==_refl hash) refl
