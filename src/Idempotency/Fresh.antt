-- ===== src/Idempotency/Fresh.antt =====
-- backend/src/common/idempotency/idempotency.service.ts: the rows' identifiers, over sequences of
-- calls.
use mathlib.Core.Path.{subst}
use stow.Prelude.{
  ℕ, zero, suc, ◌-◌, ◌<◌, ◌≡◌, ◌⊎◌, refl, sym, ◌∙◌, inl, inr, Option, none, some, List, [], ◌∷◌,
  arith, ◌==◌, ==_iff, Bool-cases, Option-cases,
}
use stow.Prelude.Result.{Result, ok, err}
use stow.Amounts.{empty_text}
use stow.Idempotency.{
  IdempotencyKey, KeyTable, Keys, AcquireResult, is_expired, new_row, claim_key, acquire, decided,
  begin, complete, release, cleanup_expired_keys,
}

-- The calls on the keys: `begins` with the time, the header, the user and the hash; `completes`
-- with the identifier, the status code and the body.
pub data KeyCall : Type 0 where
  begins : ℕ → Option ℕ → ℕ → ℕ → KeyCall
  completes : ℕ → ℕ → ℕ → KeyCall
  releases cleans : ℕ → KeyCall

module _ (t : KeyTable) (ttl : ℕ) where
  abbrev pub step : KeyCall → Keys t → Keys t
  step (begins now key user hash) s = (begin t ttl now key user hash s).1
  step (completes id code body) s = complete t ttl id code body s
  step (releases id) s = release t ttl id s
  step (cleans now) s = cleanup_expired_keys t ttl now s

  abbrev pub steps : List KeyCall → Keys t → Keys t
  steps [] s = s
  steps (q ∷ qs) s = steps qs (step q s)

  -- Identifiers lie below the next one, and no two rows share one.
  pub record IsFresh (s : Keys t) : Type 0 where
    pub below : (k u : ℕ) (r : IdempotencyKey) → t.find k u s.rows ≡ some r → r.id < s.next_id
    pub distinct :
        (k u k' u' : ℕ) (r r' : IdempotencyKey)
        → t.find k u s.rows ≡ some r
        → t.find k' u' s.rows ≡ some r'
        → r.id ≡ r'.id
        → (k ≡ k') × (u ≡ u')

  -- Rows that are found after were found before, but for the answer.
  shrunk-IsFresh :
      (s : Keys t) (rows : t.Store)
      → ((k u : ℕ) (r : IdempotencyKey)
          → t.find k u rows ≡ some r
          → (r' : IdempotencyKey) × (t.find k u s.rows ≡ some r') × (r.id ≡ r'.id))
      → IsFresh s
      → IsFresh (record s { rows = rows })
  shrunk-IsFresh s rows before h = record {
    below = λ k u r found.
        let (r', found', same) = before k u r found in
        let below = h.below k u r' found' in omega arith;
    distinct = λ k u k' u' r q found other e.
        let (r', found', same) = before k u r found in
        let (q', other', same') = before k' u' q other in
        h.distinct k u k' u' r' q' found' other' (sym same ∙ e ∙ same');
  }

  pub delete-IsFresh :
      (id : ℕ) (s : Keys t) → IsFresh s → IsFresh (record s { rows = t.delete id s.rows })
  delete-IsFresh id s h =
      shrunk-IsFresh s (t.delete id s.rows)
        (λ k u r found. (r, ground (arith, t.find-delete k u id s.rows), refl)) h

  cleanup_expired_keys-IsFresh : (now : ℕ) (s : Keys t) → IsFresh s → IsFresh (step (cleans now) s)
  unfolding cleanup_expired_keys
  cleanup_expired_keys-IsFresh now s h =
      shrunk-IsFresh s (t.delete_before (now - ttl) s.rows)
        (λ k u r found. (r, ground (arith, t.find-delete_before k u (now - ttl) s.rows), refl)) h

  complete-IsFresh :
      (id code body : ℕ) (s : Keys t) → IsFresh s → IsFresh (complete t ttl id code body s)
  unfolding complete
  complete-IsFresh id code body s h = shrunk-IsFresh s (t.update id code body s.rows) updated h
    where
      updated :
          (k u : ℕ) (r : IdempotencyKey)
          → t.find k u (t.update id code body s.rows) ≡ some r
          → (r' : IdempotencyKey) × (t.find k u s.rows ≡ some r') × (r.id ≡ r'.id)
      updated k u r found = elim (Option-cases (t.find k u s.rows)) [
        | inl missing ↦ absurd (ground (arith, t.find-update k u id code body s.rows))
        | inr (r', there) ↦ (r', there, ground (arith, t.find-update k u id code body s.rows))
      ]

  -- A row that is found after a key was claimed is the new one, or was there before.
  claimed_row :
      (k u : ℕ) (x r : IdempotencyKey) (rows : t.Store)
      → t.find r.key r.user_id rows ≡ none
      → t.find k u (t.insert r rows) ≡ some x
      → ((x.id ≡ r.id) × (k ≡ r.key) × (u ≡ r.user_id)) ⊎ (t.find k u rows ≡ some x)
  claimed_row k u x r rows free found =
      ground (arith, t.find-insert k u r rows free, ==_iff k r.key, ==_iff u r.user_id)

  claim_key-IsFresh :
      (now key user hash : ℕ) (s : Keys t)
      → t.find key user s.rows ≡ none
      → IsFresh s
      → IsFresh (claim_key t ttl now key user hash s).1
  unfolding claim_key
  claim_key-IsFresh now key user hash s free h =
      let new = new_row t ttl s.next_id now key user hash in
      record {
        below = λ k u x found. elim (claimed_row k u x new s.rows free found) [
          | inl (is, _, _) ↦ omega arith
          | inr old ↦ let less = h.below k u x old in omega arith
        ];
        distinct = λ k u k' u' x y found other e. elim (claimed_row k u x new s.rows free found) [
          | inl (is, same_k, same_u) ↦ elim (claimed_row k' u' y new s.rows free other) [
            | inl (is', same_k', same_u') ↦ (same_k ∙ sym same_k', same_u ∙ sym same_u')
            | inr old' ↦ let less = h.below k' u' y old' in absurd (omega arith)
          ]
          | inr old ↦ elim (claimed_row k' u' y new s.rows free other) [
            | inl (is', _, _) ↦ let less = h.below k u x old in absurd (omega arith)
            | inr old' ↦ h.distinct k u k' u' x y old old' e
          ]
        ];
      }

  acquire-IsFresh :
      (fuel now key user hash : ℕ) (s : Keys t)
      → IsFresh s
      → IsFresh (acquire t ttl fuel now key user hash s).1
  unfolding acquire
  acquire-IsFresh zero now key user hash s h = h
  acquire-IsFresh (suc fuel) now key user hash s h = elim (Option-cases (t.find key user s.rows)) [
    | inl free ↦ rw (free, acquire) (claim_key-IsFresh now key user hash s free h)
    | inr (r, found) ↦ elim (Bool-cases (is_expired t ttl now r)) [
      | inl old ↦
          rw (found, old, acquire)
            (acquire-IsFresh fuel now key user hash (record s { rows = t.delete r.id s.rows })
              (delete-IsFresh r.id s h))
      | inr young ↦ rw (found, young, acquire) h
    ]
  ]

  pub decided_state :
      (hash : ℕ) (r : Result AcquireResult) (s : Keys t) → (decided t ttl hash (r, s)).1 ≡ s
  decided_state hash (ok a) s = refl
  decided_state hash (err e) s = refl

  begin-IsFresh :
      (now : ℕ) (key : Option ℕ) (user hash : ℕ) (s : Keys t)
      → IsFresh s
      → IsFresh (begin t ttl now key user hash s).1
  unfolding begin
  begin-IsFresh now none user hash s h = h
  begin-IsFresh now (some key) user hash s h = elim (Bool-cases (key == empty_text)) [
    | inl empty ↦ rw (empty, begin) h
    | inr given ↦
        rw (given, begin)
          (subst IsFresh
            (sym (
              decided_state hash (acquire t ttl 2 now key user hash s).0
                (acquire t ttl 2 now key user hash s).1))
            (acquire-IsFresh 2 now key user hash s h))
  ]

  -- Whatever calls come, the rows' identifiers stay below the next one and distinct.
  pub step-IsFresh : (q : KeyCall) (s : Keys t) → IsFresh s → IsFresh (step q s)
  unfolding release
  step-IsFresh (begins now key user hash) s h = begin-IsFresh now key user hash s h
  step-IsFresh (completes id code body) s h = complete-IsFresh id code body s h
  step-IsFresh (releases id) s h = delete-IsFresh id s h
  step-IsFresh (cleans now) s h = cleanup_expired_keys-IsFresh now s h
