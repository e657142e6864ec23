-- ===== src/Auth/Sessions/Reuse.antt =====
-- backend/src/auth/auth.service.ts: a refresh token that is presented again after its rotation.
use stow.Prelude.{
  ℕ, ◌≤◌, ◌≡◌, ◌≢◌, ◌⊎◌, refl, sym, ap, ◌∙◌, inl, inr, true, false, Option, none, some, List, [],
  ◌∷◌, All, arith, ltb, Bool-cases, Option-cases,
}
use stow.Prelude.Rows.{changed_from, saved_from}
use stow.Prelude.Result.{err, unauthorized}
use stow.Auth.Sessions.{
  RefreshToken, User, Drawn, AuthConfig, AuthTables, Sessions, is_revoked, new_token, save_token,
  create_session, in_family, revoked, revoke_family, reuse_event, reject_reuse, find_user,
  replace_token, rotate_found, rotate_refresh_token,
}
use stow.Auth.Sessions.Calls.{SessionCall, logs_in, rotates, saves_user, Avoids, step, steps}

module _ (c : AuthConfig) (t : AuthTables) where
  -- The token is stored.
  abbrev pub IsStored : RefreshToken → Sessions t → Type 0
  IsStored r s = t.tokens.rows.find_one r.token_hash s.tokens ≡ some r

  -- Every stored token of the family is revoked.
  abbrev pub IsDead : ℕ → Sessions t → Type 0
  IsDead f s = (r : RefreshToken) → IsStored r s → r.family_id ≡ f → is_revoked r ≡ true

  pub save_token-IsDead :
      (f : ℕ) (r : RefreshToken) (s : Sessions t)
      → (r.family_id ≡ f → is_revoked r ≡ true)
      → IsDead f s
      → IsDead f (save_token c t r s)
  save_token-IsDead f r s h dead q stored same =
      elim (saved_from t.tokens.rows r q s.tokens stored) [
        | inl is ↦ ap is_revoked is ∙ h (ap (λ (x : RefreshToken). x.family_id) (sym is) ∙ same)
        | inr (_, before) ↦ dead q before same
      ]

  -- A token that is stored after the revocation of a family was stored before, live or not.
  pub revoke_family_from :
      (f now : ℕ) (s : Sessions t) (q : RefreshToken)
      → IsStored q (revoke_family c t f now s)
      → (is_revoked q ≡ true) ⊎ ((in_family c t f q ≡ false) × IsStored q s)
  revoke_family_from f now s q stored =
      let (r, there, how) =
        changed_from (in_family c t f) (revoked c t now)
          (t.tokens.rows.find_one q.token_hash s.tokens) q
          (sym (
              t.tokens.find_one-update_where (in_family c t f) (revoked c t now) q.token_hash
                s.tokens (λ x. refl))
            ∙ stored) in
      elim how [
        | inl (_, is) ↦ inl (ap is_revoked is)
        | inr (out, is) ↦ inr (ap (in_family c t f) is ∙ out, there ∙ ap some (sym is))
      ]

  revoke_family-IsDead :
      (f g now : ℕ) (s : Sessions t) → IsDead f s → IsDead f (revoke_family c t g now s)
  revoke_family-IsDead f g now s dead q stored same = elim (revoke_family_from g now s q stored) [
    | inl gone ↦ gone
    | inr (_, before) ↦ dead q before same
  ]

  outside-is_revoked :
      (f : ℕ) (q : RefreshToken) → in_family c t f q ≡ false → q.family_id ≡ f → is_revoked q ≡ true
  outside-is_revoked f q out same = ground arith

  revoked_family-IsDead : (f now : ℕ) (s : Sessions t) → IsDead f (revoke_family c t f now s)
  revoked_family-IsDead f now s q stored same = elim (revoke_family_from f now s q stored) [
    | inl gone ↦ gone
    | inr (out, _) ↦ outside-is_revoked f q out same
  ]

  create_session-IsDead :
      (f now : ℕ) (u : User) (d : Drawn) (s : Sessions t)
      → d.family ≢ f
      → IsDead f s
      → IsDead f (create_session c t u now d s).1
  unfolding create_session
  create_session-IsDead f now u d s other dead =
      save_token-IsDead f (new_token c t u.id d.family none now d) s (λ same. absurd (other same))
        dead

  -- What a rotation of a live token leaves: nothing new without the user, or else the token
  -- revoked and the next one saved.
  pub replace_token_cases :
      (r : RefreshToken) (now : ℕ) (d : Drawn) (s : Sessions t)
      → ((replace_token c t r now d s).1 ≡ s)
        ⊎ ((user : ℕ) × ((replace_token c t r now d s).1
              ≡ save_token c t
                  (new_token c t user r.family_id (some r.id) now d)
                  (save_token c t (revoked c t now r) s)))
  unfolding replace_token
  replace_token_cases r now d s = elim (Option-cases (find_user c t r.user_id s)) [
    | inl missing ↦ inl (rw missing refl)
    | inr (u, found) ↦ inr (u.id, rw found refl)
  ]

  live_not_in :
      (f : ℕ) (r : RefreshToken) (s : Sessions t)
      → IsDead f s
      → IsStored r s
      → is_revoked r ≡ false
      → r.family_id ≢ f
  live_not_in f r s dead stored live same = cc (dead r stored same, live)

  replace_token-IsDead :
      (f : ℕ) (r : RefreshToken) (now : ℕ) (d : Drawn) (s : Sessions t)
      → IsStored r s
      → is_revoked r ≡ false
      → IsDead f s
      → IsDead f (replace_token c t r now d s).1
  replace_token-IsDead f r now d s stored live dead = elim (replace_token_cases r now d s) [
    | inl same ↦ rw same dead
    | inr (user, is) ↦
        let other = live_not_in f r s dead stored live in
        rw is (
          save_token-IsDead f (new_token c t user r.family_id (some r.id) now d)
            (save_token c t (revoked c t now r) s) (λ same. absurd (other same))
            (save_token-IsDead f (revoked c t now r) s (λ same. refl) dead))
  ]

  rotate_found-IsDead :
      (f : ℕ) (o : Option RefreshToken) (now : ℕ) (d : Drawn) (s : Sessions t)
      → ((r : RefreshToken) → o ≡ some r → IsStored r s)
      → IsDead f s
      → IsDead f (rotate_found c t o now d s).1
  unfolding reject_reuse
  rotate_found-IsDead f none now d s stored dead = dead
  rotate_found-IsDead f (some r) now d s stored dead = elim (Bool-cases (ltb r.expires_at now)) [
    | inl over ↦ rw over dead
    | inr young ↦ elim (Bool-cases (is_revoked r)) [
      | inl gone ↦ rw (young, gone) (revoke_family-IsDead f r.family_id now s dead)
      | inr live ↦ rw (young, live) (replace_token-IsDead f r now d s (stored r refl) live dead)
    ]
  ]

  -- The token that is found under a hash is stored under its own.
  pub found-IsStored :
      (h : ℕ) (r : RefreshToken) (s : Sessions t)
      → t.tokens.rows.find_one h s.tokens ≡ some r
      → IsStored r s
  found-IsStored h r s e =
      ap (λ i. t.tokens.rows.find_one i s.tokens) (t.tokens.rows.find_one-key h s.tokens r e) ∙ e

  step-IsDead :
      (f : ℕ) (q : SessionCall) (s : Sessions t) → Avoids f q → IsDead f s → IsDead f (step c t q s)
  unfolding step rotate_refresh_token
  step-IsDead f (logs_in u now d) s other dead = create_session-IsDead f now u d s other dead
  step-IsDead f (rotates raw now d) s _ dead =
      rotate_found-IsDead f (t.tokens.rows.find_one (c.sha256 raw) s.tokens) now d s
        (λ r e. found-IsStored (c.sha256 raw) r s e) dead
  step-IsDead f (saves_user u) s _ dead = dead

  steps-IsDead :
      (f : ℕ) (qs : List SessionCall) (s : Sessions t)
      → All (Avoids f) qs
      → IsDead f s
      → IsDead f (steps c t qs s)
  steps-IsDead f [] s avoid dead = dead
  steps-IsDead f (q ∷ qs) s avoid dead =
      steps-IsDead f qs (step c t q s) avoid.1 (step-IsDead f q s avoid.0 dead)

  rotate_dead :
      (f : ℕ) (raw : List ℕ) (now : ℕ) (d : Drawn) (r : RefreshToken) (s : Sessions t)
      → t.tokens.rows.find_one (c.sha256 raw) s.tokens ≡ some r
      → r.family_id ≡ f
      → IsDead f s
      → (rotate_refresh_token c t raw now d s).0 ≡ err unauthorized
  unfolding rotate_refresh_token
  rotate_dead f raw now d r s found same dead =
      let gone = dead r (found-IsStored (c.sha256 raw) r s found) same in
      elim (Bool-cases (ltb r.expires_at now)) [
        | inl over ↦ rw (found, over) refl
        | inr young ↦ rw (found, young, gone, reject_reuse) refl
      ]

  pub rotate_revoked :
      (raw : List ℕ) (now : ℕ) (d : Drawn) (r : RefreshToken) (s : Sessions t)
      → t.tokens.rows.find_one (c.sha256 raw) s.tokens ≡ some r
      → now ≤ r.expires_at
      → is_revoked r ≡ true
      → rotate_refresh_token c t raw now d s ≡ reject_reuse c t r now s
  unfolding rotate_refresh_token
  rotate_revoked raw now d r s found young gone =
      let not_over : ltb r.expires_at now ≡ false = ground arith in rw (found, not_over, gone) refl

  -- A token that was revoked before is presented and has not expired: the call throws and records
  -- the reuse. From then on, whatever calls come that start no other session under the identifier
  -- of its family, every rotation of a stored token of the family throws.
  pub reuse_ends_family :
      (raw : List ℕ) (now : ℕ) (d : Drawn) (r : RefreshToken) (s : Sessions t)
      → t.tokens.rows.find_one (c.sha256 raw) s.tokens ≡ some r
      → now ≤ r.expires_at
      → is_revoked r ≡ true
      → (qs : List SessionCall) → All (Avoids r.family_id) qs
      → (raw' : List ℕ) (later : ℕ) (d' : Drawn) (q : RefreshToken)
      → t.tokens.rows.find_one
          (c.sha256 raw')
          (steps c t qs (rotate_refresh_token c t raw now d s).1).tokens
        ≡ some q
      → q.family_id ≡ r.family_id
      → let s' = (rotate_refresh_token c t raw now d s).1 in
        ((rotate_refresh_token c t raw now d s).0 ≡ err unauthorized)
        × (s'.audit_events ≡ reuse_event c t r ∷ s.audit_events)
        × ((rotate_refresh_token c t raw' later d' (steps c t qs s')).0 ≡ err unauthorized)
  unfolding reject_reuse
  reuse_ends_family raw now d r s found young gone qs avoid raw' later d' q found' same =
      let is = rotate_revoked raw now d r s found young gone in
      let dead : IsDead r.family_id (rotate_refresh_token c t raw now d s).1 =
        rw is (revoked_family-IsDead r.family_id now s) in
      (
        ap (λ x. x.0) is,
        ap (λ x. x.1.audit_events) is,
        rotate_dead r.family_id raw' later d' q
            (steps c t qs (rotate_refresh_token c t raw now d s).1) found' same
            (steps-IsDead r.family_id qs (rotate_refresh_token c t raw now d s).1 avoid dead),
      )
