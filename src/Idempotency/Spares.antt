-- ===== src/Idempotency/Spares.antt =====
-- backend/src/common/idempotency: a row that has not expired, over the calls of other handlers.
use stow.Prelude.{
  ℕ, zero, suc, ◌+◌, ◌-◌, ◌≤◌, ◌≡◌, ◌≢◌, sym, ap, ◌∙◌, inl, inr, true, none, some, List, [], ◌∷◌,
  All, arith, ◌==◌, ==_iff, ◌&&◌, Bool-cases, Option-cases, some-eq,
}
use stow.Amounts.{empty_text}
use stow.Idempotency.{
  IdempotencyKey, KeyTable, Keys, is_expired, new_row, claim_key, acquire, begin, complete, release,
  cleanup_expired_keys,
}
use stow.Idempotency.Fresh.{
  KeyCall, begins, completes, releases, cleans, step, steps, IsFresh, delete-IsFresh, decided_state,
  step-IsFresh,
}

none-ne-some : {A : Type 0} {a : A} → none ≡ some a → ⊥
none-ne-some e = cc

module _ (t : KeyTable) (ttl : ℕ) where
  -- For a row with that identifier, created at that time: the call comes within the row's time to
  -- live, and is not the end of the row's own handler.
  abbrev pub Spares : ℕ → ℕ → KeyCall → Type 0
  Spares own created (begins now key user hash) = now ≤ created + ttl
  Spares own created (cleans now) = now ≤ created + ttl
  Spares own created (completes id code body) = own ≢ id
  Spares own created (releases id) = own ≢ id

  same_place :
      {k k' u u' : ℕ} (rows : t.Store) → k ≡ k' → u ≡ u' → t.find k u rows ≡ t.find k' u' rows
  same_place {k} {k'} {u} {u'} rows p q = ap (λ x. t.find x u rows) p ∙ ap (λ x. t.find k' x rows) q

  delete_other :
      (k u : ℕ) (r r' : IdempotencyKey) (rows : t.Store)
      → t.find k u rows ≡ some r
      → r.id ≢ r'.id
      → t.find k u (t.delete r'.id rows) ≡ some r
  delete_other k u r r' rows found other =
      ground (arith, t.find-delete k u r'.id rows, ==_iff r.id r'.id)

  claim_other :
      (now k u key user hash : ℕ) (r : IdempotencyKey) (s : Keys t)
      → t.find k u s.rows ≡ some r
      → t.find key user s.rows ≡ none
      → t.find k u (claim_key t ttl now key user hash s).1.rows ≡ some r
  unfolding claim_key
  claim_other now k u key user hash r s found free =
      let new = new_row t ttl s.next_id now key user hash in
      elim (Bool-cases (k == key && u == user)) [
        | inl both ↦
            let same_k : k ≡ key = ground (arith, ==_iff k key, ==_iff u user) in
            let same_u : u ≡ user = ground (arith, ==_iff k key, ==_iff u user) in
            absurd (none-ne-some (sym free ∙ sym (same_place s.rows same_k same_u) ∙ found))
        | inr other ↦ t.find-insert k u new s.rows free ∙ rw other found
      ]

  pub not_expired :
      (now : ℕ) (r : IdempotencyKey) → now ≤ r.created_at + ttl → is_expired t ttl now r ≡ true → ⊥
  not_expired now r young old = ground arith

  acquire-Spares :
      (fuel now k u key user hash : ℕ) (r : IdempotencyKey) (s : Keys t)
      → IsFresh t ttl s
      → t.find k u s.rows ≡ some r
      → now ≤ r.created_at + ttl
      → t.find k u (acquire t ttl fuel now key user hash s).1.rows ≡ some r
  unfolding acquire
  acquire-Spares zero now k u key user hash r s h found young = found
  acquire-Spares (suc fuel) now k u key user hash r s h found young =
      elim (Option-cases (t.find key user s.rows)) [
        | inl free ↦ rw (free, acquire) (claim_other now k u key user hash r s found free)
        | inr (r', found') ↦ elim (Bool-cases (is_expired t ttl now r')) [
          | inr current ↦ rw (found', current, acquire) found
          | inl old ↦
              let other : r.id ≢ r'.id = λ same.
                let (same_k, same_u) = h.distinct k u key user r r' found found' same in
                let is : r ≡ r' = some-eq (sym found ∙ same_place s.rows same_k same_u ∙ found') in
                not_expired now r young (ap (is_expired t ttl now) is ∙ old) in
              rw (found', old, acquire)
                (acquire-Spares fuel now k u key user hash r
                  (record s { rows = t.delete r'.id s.rows }) (delete-IsFresh t ttl r'.id s h)
                  (delete_other k u r r' s.rows found other) young)
        ]
      ]

  begin-without_key :
      (now k u user hash : ℕ) (r : IdempotencyKey) (s : Keys t)
      → t.find k u s.rows ≡ some r
      → t.find k u (begin t ttl now none user hash s).1.rows ≡ some r
  unfolding begin
  begin-without_key now k u user hash r s found = found

  begin-Spares :
      (now k u key user hash : ℕ) (r : IdempotencyKey) (s : Keys t)
      → IsFresh t ttl s
      → t.find k u s.rows ≡ some r
      → now ≤ r.created_at + ttl
      → t.find k u (begin t ttl now (some key) user hash s).1.rows ≡ some r
  unfolding begin
  begin-Spares now k u key user hash r s h found young = elim (Bool-cases (key == empty_text)) [
    | inl empty ↦ rw (empty, begin) found
    | inr given ↦
        rw (given, begin)
          (ap (λ (x : Keys t). t.find k u x.rows)
              (decided_state t ttl hash (acquire t ttl 2 now key user hash s).0
                (acquire t ttl 2 now key user hash s).1)
            ∙ acquire-Spares 2 now k u key user hash r s h found young)
  ]

  step-Spares :
      (q : KeyCall) (k u : ℕ) (r : IdempotencyKey) (s : Keys t)
      → IsFresh t ttl s
      → t.find k u s.rows ≡ some r
      → Spares r.id r.created_at q
      → t.find k u (step t ttl q s).rows ≡ some r
  unfolding complete release cleanup_expired_keys
  step-Spares (begins now none user hash) k u r s h found sp =
      begin-without_key now k u user hash r s found
  step-Spares (begins now (some key) user hash) k u r s h found sp =
      begin-Spares now k u key user hash r s h found sp
  step-Spares (completes id code body) k u r s h found sp =
      ground (arith, t.find-update k u id code body s.rows, ==_iff r.id id)
  step-Spares (releases id) k u r s h found sp =
      ground (arith, t.find-delete k u id s.rows, ==_iff r.id id)
  step-Spares (cleans now) k u r s h found sp =
      ground (arith, t.find-delete_before k u (now - ttl) s.rows)

  pub steps-Spares :
      (qs : List KeyCall) (k u : ℕ) (r : IdempotencyKey) (s : Keys t)
      → IsFresh t ttl s
      → t.find k u s.rows ≡ some r
      → All (Spares r.id r.created_at) qs
      → (t.find k u (steps t ttl qs s).rows ≡ some r) × IsFresh t ttl (steps t ttl qs s)
  steps-Spares [] k u r s h found sp = (found, h)
  steps-Spares (q ∷ qs) k u r s h found sp =
      steps-Spares qs k u r (step t ttl q s) (step-IsFresh t ttl q s h)
        (step-Spares q k u r s h found sp.0) sp.1
