-- ===== src/ApiKeys/Lifecycle.antt =====
-- backend/src/auth/api-key.service.ts: a key from its creation to its revocation.
use stow.Prelude.{
  In, ℕ, ◌≡◌, refl, sym, ap, ◌∙◌, inl, inr, true, false, Option, some, List, [], ◌∷◌, ◌++◌, All,
  take, ◌==◌, ==_iff, ==_refl, Bool-cases, some-eq,
}
use stow.Prelude.Table.{find_one-save_self}
use stow.Prelude.Result.{ok, err, unauthorized}
use stow.ApiKeys.{
  ApiKey, Bcrypt, KeyTable, raw_prefix, starts_with, is_expired, new_key, create, revoke_found,
  revoke, first_match, check_match, validate_key,
}

module _ (b : Bcrypt) (t : KeyTable) where
  -- No stored key accepts a text, but the one with this identifier, if there is one.
  abbrev pub IsAlone : List ℕ → ℕ → t.rows.Store → Type 0
  IsAlone raw id s =
      (k : ApiKey) → t.rows.find_one k.id s ≡ some k → b.compare raw k.key_hash ≡ true → k.id ≡ id

  save-IsAlone :
      (raw : List ℕ) (k : ApiKey) (s : t.rows.Store)
      → IsAlone raw k.id s
      → IsAlone raw k.id (t.rows.save k s)
  save-IsAlone raw k s h c found accepts = elim (Bool-cases (c.id == k.id)) [
    | inl same ↦ (==_iff c.id k.id).0 same
    | inr other ↦ h c (sym (t.rows.find_one-save c.id k s ∙ rw other refl) ∙ found) accepts
  ]

  -- A match found after a key was saved is that key.
  match_is :
      (raw : List ℕ) (k : ApiKey) (s : t.rows.Store)
      → IsAlone raw k.id s
      → (c : ApiKey) → t.rows.find_one c.id (t.rows.save k s) ≡ some c
      → b.compare raw c.key_hash ≡ true
      → c ≡ k
  match_is raw k s h c found accepts =
      let same = save-IsAlone raw k s h c found accepts in
      some-eq (
        sym found
        ∙ ap (λ i. t.rows.find_one i (t.rows.save k s)) same
        ∙ find_one-save_self t.rows k.id k s refl)

  first_match-only :
      (raw : List ℕ) (k : ApiKey) (cs : List ApiKey)
      → b.compare raw k.key_hash ≡ true
      → All (λ c. b.compare raw c.key_hash ≡ true → c ≡ k) cs
      → In k cs
      → first_match b t raw cs ≡ some k
  first_match-only raw k [] accepts only listed = absurd listed
  first_match-only raw k (c ∷ cs) accepts only listed =
      elim (Bool-cases (b.compare raw c.key_hash)) [
        | inl yes_here ↦ rw yes_here (ap some (only.0 yes_here))
        | inr not_here ↦ rw not_here (
            first_match-only raw k cs accepts only.1 (elim listed [
              | inl same ↦
                  let accepts_c =
                    ap (λ (x : ApiKey). b.compare raw x.key_hash) (sym same) ∙ accepts in
                  absurd cc
              | inr later ↦ later
            ]))
      ]

  All-match :
      (raw : List ℕ) (k : ApiKey) (s : t.rows.Store) (cs : List ApiKey)
      → IsAlone raw k.id s
      → All (λ c. t.rows.find_one c.id (t.rows.save k s) ≡ some c) cs
      → All (λ c. b.compare raw c.key_hash ≡ true → c ≡ k) cs
  All-match raw k s [] h found = tt
  All-match raw k s (c ∷ cs) h found =
      (match_is raw k s h c found.0, All-match raw k s cs h found.1)

  validate_saved :
      (raw : List ℕ) (now : ℕ) (k : ApiKey) (s : t.rows.Store)
      → starts_with raw_prefix raw ≡ true
      → b.compare raw k.key_hash ≡ true
      → k.key_prefix ≡ take 10 raw
      → IsAlone raw k.id s
      → validate_key b t raw now (t.rows.save k s) ≡ check_match b t (some k) now
  unfolding validate_key
  validate_saved raw now k s prefixed accepts prefix h =
      let s' = t.rows.save k s in
      let listed =
        t.find_prefix-complete (take 10 raw) s' k (find_one-save_self t.rows k.id k s refl)
          prefix in
      let only =
        All-match raw k s (t.find_prefix (take 10 raw) s') h
          (t.find_prefix-found (take 10 raw) s') in
      rw (prefixed, first_match-only raw k (t.find_prefix (take 10 raw) s') accepts only listed)
        refl

  -- Where no key stored under another identifier accepts the new text, what `create` returns is
  -- validated at every time at which it has not expired, and gives the row that was stored; once
  -- its user has revoked it, it is rejected at every time.
  pub create-validate_key :
      (fresh user salt : ℕ) (random scopes : List ℕ) (expires_at : Option ℕ) (s : t.rows.Store)
      → IsAlone (raw_prefix ++ random) fresh s
      → let (done, s') = create b t fresh user salt random scopes expires_at s in
        (raw : List ℕ) × (k : ApiKey) × (done ≡ ok (raw, k))
        × (k.user_id ≡ user)
        × ((now : ℕ) → is_expired expires_at now ≡ false → validate_key b t raw now s' ≡ ok k)
        × ((at_time now : ℕ)
            → validate_key b t raw now (revoke b t fresh user at_time s').1 ≡ err unauthorized)
  unfolding create revoke
  create-validate_key fresh user salt random scopes expires_at s h =
      let raw = raw_prefix ++ random in
      let k : ApiKey = new_key b t fresh user salt raw scopes expires_at in
      let revoked =
        λ (at_time : ℕ). (let r : ApiKey = record k { revoked_at = some at_time } in r) in
      let accepts = b.compare-hash salt raw in
      (
        raw,
        k,
        refl,
        refl,
        (λ now fresh_yet. validate_saved raw now k s refl accepts refl h ∙ rw fresh_yet refl),
        λ at_time now.
            let found = find_one-save_self t.rows fresh k s refl in
            let gone : (revoke_found b t (t.rows.find_one fresh (t.rows.save k s)) user at_time
                  (t.rows.save k s)).1
                ≡ t.rows.save (revoked at_time) (t.rows.save k s) =
              rw (found, ==_refl user) refl in
            ap (validate_key b t raw now) gone
            ∙ validate_saved raw now (revoked at_time) (t.rows.save k s) refl accepts refl
                (save-IsAlone raw k s h),
      )
