-- ===== src/Auth/Sessions/Linear.antt =====
-- backend/src/auth/auth.service.ts: the live refresh tokens of a family, over sequences of calls.
use stow.Prelude.{
  ℕ, ◌≡◌, ◌≢◌, refl, sym, ap, ◌∙◌, inl, inr, true, false, Option, none, some, List, [], ◌∷◌, ltb,
  Bool-cases,
}
use stow.Prelude.Rows.{saved_from}
use stow.Auth.Sessions.{
  RefreshToken, Drawn, AuthConfig, AuthTables, Sessions, is_revoked, new_token, save_token,
  create_session, revoked, revoke_family, reject_reuse, replace_token, rotate_found,
  rotate_refresh_token,
}
use stow.Auth.Sessions.Calls.{SessionCall, logs_in, rotates, saves_user, step, steps}
use stow.Auth.Sessions.Reuse.{
  IsStored, IsDead, revoke_family_from, replace_token_cases, found-IsStored,
}

module _ (c : AuthConfig) (t : AuthTables) where
  abbrev IsLive : RefreshToken → Sessions t → Type 0
  IsLive r s = IsStored c t r s × (is_revoked r ≡ false)

  -- Two live tokens of one family are one.
  abbrev pub IsLinear : Sessions t → Type 0
  IsLinear s =
      (r q : RefreshToken)
      → IsLive r s
      → IsLive q s
      → r.family_id ≡ q.family_id
      → r.token_hash ≡ q.token_hash

  -- No token of the family is stored.
  abbrev pub IsUnused : ℕ → Sessions t → Type 0
  IsUnused f s = (r : RefreshToken) → IsStored c t r s → r.family_id ≢ f

  -- Each sign-in draws an identifier that no stored family has.
  abbrev pub DrawsUnused : SessionCall → Sessions t → Type 0
  DrawsUnused (logs_in u now d) s = IsUnused d.family s
  DrawsUnused (rotates raw now d) s = Unit {0}
  DrawsUnused (saves_user u) s = Unit {0}

  abbrev pub AllDrawUnused : List SessionCall → Sessions t → Type 0
  AllDrawUnused [] s = Unit {0}
  AllDrawUnused (q ∷ qs) s = DrawsUnused q s × AllDrawUnused qs (step c t q s)

  fewer-IsLinear :
      (s s' : Sessions t)
      → ((q : RefreshToken) → IsLive q s' → IsLive q s)
      → IsLinear s
      → IsLinear s'
  fewer-IsLinear s s' from h r q live live' same = h r q (from r live) (from q live') same

  not_live_of_dead :
      (f : ℕ) (q : RefreshToken) (s : Sessions t) → IsDead c t f s → IsLive q s → q.family_id ≢ f
  not_live_of_dead f q s dead live same = cc (dead q live.0 same, live.1)

  -- A token is saved into a family without a live one.
  save_to_dead :
      (n : RefreshToken) (s : Sessions t)
      → IsDead c t n.family_id s
      → IsLinear s
      → IsLinear (save_token c t n s)
  save_to_dead n s dead h r q live live' same =
      elim (saved_from t.tokens.rows n r s.tokens live.0) [
        | inl is ↦ elim (saved_from t.tokens.rows n q s.tokens live'.0) [
          | inl is' ↦ ap (λ (x : RefreshToken). x.token_hash) (is ∙ sym is')
          | inr (_, before) ↦ absurd (
              not_live_of_dead n.family_id q s dead (before, live'.1)
                (sym same ∙ ap (λ (x : RefreshToken). x.family_id) is))
        ]
        | inr (_, before) ↦ elim (saved_from t.tokens.rows n q s.tokens live'.0) [
          | inl is' ↦ absurd (
              not_live_of_dead n.family_id r s dead (before, live.1)
                (same ∙ ap (λ (x : RefreshToken). x.family_id) is'))
          | inr (_, before') ↦ h r q (before, live.1) (before', live'.1) same
        ]
      ]

  revoked-fewer :
      (r : RefreshToken) (now : ℕ) (s : Sessions t) (q : RefreshToken)
      → IsLive q (save_token c t (revoked c t now r) s)
      → (q.token_hash ≢ r.token_hash) × IsLive q s
  revoked-fewer r now s q live =
      elim (saved_from t.tokens.rows (revoked c t now r) q s.tokens live.0) [
        | inl is ↦ let wrong : true ≡ false = sym (ap is_revoked is) ∙ live.1 in absurd cc
        | inr (other, before) ↦ (other, (before, live.1))
      ]

  -- With its only live token revoked a family is dead.
  revoked-IsDead :
      (r : RefreshToken) (now : ℕ) (s : Sessions t)
      → IsLive r s
      → IsLinear s
      → IsDead c t r.family_id (save_token c t (revoked c t now r) s)
  revoked-IsDead r now s live h q stored same = elim (Bool-cases (is_revoked q)) [
    | inl gone ↦ gone
    | inr alive ↦
        let (other, before) = revoked-fewer r now s q (stored, alive) in
        absurd (other (h q r before live same))
  ]

  replace_token-IsLinear :
      (r : RefreshToken) (now : ℕ) (d : Drawn) (s : Sessions t)
      → IsLive r s
      → IsLinear s
      → IsLinear (replace_token c t r now d s).1
  replace_token-IsLinear r now d s live h = elim (replace_token_cases c t r now d s) [
    | inl same ↦ rw same h
    | inr (user, is) ↦ rw is (
        save_to_dead (new_token c t user r.family_id (some r.id) now d)
          (save_token c t (revoked c t now r) s) (revoked-IsDead r now s live h)
          (fewer-IsLinear s (save_token c t (revoked c t now r) s)
            (λ q live'. (revoked-fewer r now s q live').1) h))
  ]

  revoke_family-fewer :
      (f now : ℕ) (s : Sessions t) (q : RefreshToken)
      → IsLive q (revoke_family c t f now s)
      → IsLive q s
  revoke_family-fewer f now s q live = elim (revoke_family_from c t f now s q live.0) [
    | inl gone ↦ absurd (cc (gone, live.1))
    | inr (_, before) ↦ (before, live.1)
  ]

  rotate_found-IsLinear :
      (o : Option RefreshToken) (now : ℕ) (d : Drawn) (s : Sessions t)
      → ((r : RefreshToken) → o ≡ some r → IsStored c t r s)
      → IsLinear s
      → IsLinear (rotate_found c t o now d s).1
  unfolding reject_reuse
  rotate_found-IsLinear none now d s stored h = h
  rotate_found-IsLinear (some r) now d s stored h = elim (Bool-cases (ltb r.expires_at now)) [
    | inl over ↦ rw over h
    | inr young ↦ elim (Bool-cases (is_revoked r)) [
      | inl gone ↦
          rw (young, gone)
            (fewer-IsLinear s (revoke_family c t r.family_id now s)
              (revoke_family-fewer r.family_id now s) h)
      | inr live ↦ rw (young, live) (replace_token-IsLinear r now d s (stored r refl, live) h)
    ]
  ]

  step-IsLinear :
      (q : SessionCall) (s : Sessions t) → DrawsUnused q s → IsLinear s → IsLinear (step c t q s)
  unfolding step create_session rotate_refresh_token
  step-IsLinear (logs_in u now d) s unused h =
      save_to_dead (new_token c t u.id d.family none now d) s
        (λ r stored same. absurd (unused r stored same)) h
  step-IsLinear (rotates raw now d) s _ h =
      rotate_found-IsLinear (t.tokens.rows.find_one (c.sha256 raw) s.tokens) now d s
        (λ r e. found-IsStored c t (c.sha256 raw) r s e) h
  step-IsLinear (saves_user u) s _ h = h

  -- Where every sign-in draws an identifier that no stored family has: from sessions in which no
  -- family has two live tokens, any calls, at any times, lead to such sessions.
  pub steps-IsLinear :
      (qs : List SessionCall) (s : Sessions t)
      → AllDrawUnused qs s
      → IsLinear s
      → IsLinear (steps c t qs s)
  steps-IsLinear [] s unused h = h
  steps-IsLinear (q ∷ qs) s unused h =
      steps-IsLinear qs (step c t q s) unused.1 (step-IsLinear q s unused.0 h)
