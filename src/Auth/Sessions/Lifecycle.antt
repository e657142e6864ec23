-- ===== src/Auth/Sessions/Lifecycle.antt =====
-- backend/src/auth/auth.service.ts: a session from its start over a rotation to the reuse of the
-- token that was replaced.
use stow.Prelude.{
  ℕ, ◌+◌, ◌*◌, ◌≤◌, ◌≡◌, ◌≢◌, refl, ap, ◌∙◌, inl, inr, true, false, none, some, List, [], arith,
  ltb, ◌==◌, ==_iff, Bool-cases,
}
use stow.Prelude.Table.{find_one-save_self}
use stow.Prelude.Result.{ok, err, unauthorized}
use stow.Auth.Sessions.{
  RefreshToken, User, Drawn, AuthConfig, AuthTables, Sessions, is_revoked, days_or_default,
  new_token, save_token, tokens_of, create_session, revoked, find_user, in_family, reject_reuse,
  replace_token, rotate_refresh_token,
}
use stow.Auth.Sessions.Reuse.{rotate_revoked, reuse_ends_family}

module _ (c : AuthConfig) (t : AuthTables) where
  in_family-live :
      (f : ℕ) (q : RefreshToken) → is_revoked q ≡ false → q.family_id ≡ f → in_family c t f q ≡ true
  in_family-live f q live same = ground arith

  rotate_live :
      (raw : List ℕ) (now : ℕ) (d : Drawn) (r : RefreshToken) (u : User) (s : Sessions t)
      → t.tokens.rows.find_one (c.sha256 raw) s.tokens ≡ some r
      → now ≤ r.expires_at
      → is_revoked r ≡ false
      → find_user c t r.user_id s ≡ some u
      → rotate_refresh_token c t raw now d s ≡ (
        ok (tokens_of c t u d.raw),
        save_token c t
            (new_token c t u.id r.family_id (some r.id) now d)
            (save_token c t (revoked c t now r) s),
      )
  unfolding rotate_refresh_token
  rotate_live raw now d r u s found young live user =
      let not_over : ltb r.expires_at now ≡ false = ground arith in
      rw (found, not_over, live) (rw (user, replace_token) refl)

  -- Two tokens of a family of which the first is revoked: its reuse ends the second.
  both_refused :
      (raw raw' : List ℕ) (again last : ℕ) (d e : Drawn) (r q : RefreshToken) (s : Sessions t)
      → t.tokens.rows.find_one (c.sha256 raw) s.tokens ≡ some r
      → again ≤ r.expires_at
      → is_revoked r ≡ true
      → t.tokens.rows.find_one (c.sha256 raw') s.tokens ≡ some q
      → is_revoked q ≡ false
      → q.family_id ≡ r.family_id
      → let (reused, ended) = rotate_refresh_token c t raw again d s in
        (reused ≡ err unauthorized)
        × ((rotate_refresh_token c t raw' last e ended).0 ≡ err unauthorized)
  unfolding reject_reuse
  both_refused raw raw' again last d e r q s found young gone found' live same =
      let (reused, _, refused) =
        reuse_ends_family c t raw again d r s found young gone [] tt raw' last e
          (revoked c t again q)
          (ap (λ x. t.tokens.rows.find_one (c.sha256 raw') x.1.tokens)
              (rotate_revoked c t raw again d r s found young gone)
            ∙ t.tokens.find_one-update_where (in_family c t r.family_id) (revoked c t again)
                (c.sha256 raw') s.tokens (λ x. refl)
            ∙ rw found' (rw (in_family-live r.family_id q live same) refl))
          same in
      (reused, refused)

  -- A user who is stored signs in. Within the lifetime the new refresh token is rotated for the
  -- next one, of another hash. Presented once more within that time, the first is refused, and from
  -- then on the second is refused too.
  pub create_session-rotate :
      (u : User) (now later again last : ℕ) (d d' d'' e : Drawn) (s : Sessions t)
      → find_user c t u.id s ≡ some u
      → later ≤ now + days_or_default c.refresh_token_ttl_days * 86_400_000
      → again ≤ now + days_or_default c.refresh_token_ttl_days * 86_400_000
      → c.sha256 d.raw ≢ c.sha256 d'.raw
      → let (started, s') = create_session c t u now d s in
        let (rotated, s'') = rotate_refresh_token c t d.raw later d' s' in
        let (reused, ended) = rotate_refresh_token c t d.raw again d'' s'' in
        (started ≡ ok (tokens_of c t u d.raw))
        × (rotated ≡ ok (tokens_of c t u d'.raw))
        × (reused ≡ err unauthorized)
        × ((rotate_refresh_token c t d'.raw last e ended).0 ≡ err unauthorized)
  unfolding create_session
  create_session-rotate u now later again last d d' d'' e s stored young young' other =
      let first = new_token c t u.id d.family none now d in
      let s1 = save_token c t first s in
      let gone = revoked c t later first in
      let next = new_token c t u.id d.family (some d.row_id) later d' in
      let s2 = save_token c t next (save_token c t gone s1) in
      let rotated =
        rotate_live d.raw later d' first u s1
          (find_one-save_self t.tokens.rows first.token_hash first s.tokens refl) young refl
          stored in
      let differ : (c.sha256 d.raw == c.sha256 d'.raw) ≡ false =
        elim (Bool-cases (c.sha256 d.raw == c.sha256 d'.raw)) [
          | inl same ↦ absurd (other ((==_iff (c.sha256 d.raw) (c.sha256 d'.raw)).0 same))
          | inr not_same ↦ not_same
        ] in
      let kept : t.tokens.rows.find_one (c.sha256 d.raw) s2.tokens ≡ some gone =
        t.tokens.rows.find_one-save (c.sha256 d.raw) next (save_token c t gone s1).tokens
        ∙ rw differ (find_one-save_self t.tokens.rows (c.sha256 d.raw) gone s1.tokens refl) in
      let at : (rotate_refresh_token c t d.raw later d' s1).1 ≡ s2 = ap (λ x. x.1) rotated in
      let (reused, ended) =
        both_refused d.raw d'.raw again last d'' e gone next s2 kept young' refl
          (find_one-save_self t.tokens.rows next.token_hash next (save_token c t gone s1).tokens
            refl)
          refl refl in
      (refl, ap (λ x. x.0) rotated, rw at reused, rw at ended)
