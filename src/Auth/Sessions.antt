-- ===== src/Auth/Sessions.antt =====
-- backend/src/auth/auth.service.ts, the sessions: an access token, which is signed and not stored,
-- and a refresh token, of which the hash is stored. A rotation replaces a refresh token by the next
-- one of its family. SHA-256, the signature of the access tokens and the random texts are
-- parameters; the texts of the exceptions, which do not tell a caller's branch, are left out.
pub mod Calls
pub mod Reuse
pub mod Linear
pub mod Lifecycle
mod Tests
use stow.Prelude.{
  ℕ, zero, suc, ◌+◌, ◌*◌, Bool, true, false, Option, none, some, List, [], ◌∷◌, ltb, ◌==◌, ◌&&◌,
  if◌then◌else◌,
}
use stow.Prelude.Table.{Table}
use stow.Prelude.Rows.{RowTable}
use stow.Prelude.Result.{
  ok, err, unauthorized, Action, raise, or_raise, pure, gets, modify, ◌>>=◌, ◌>>◌,
}

-- refresh-token.entity.ts
pub record RefreshToken : Type 0 where
  pub id : ℕ
  pub user_id : ℕ
  pub family_id : ℕ
  pub token_hash : ℕ
  pub previous_token_id : Option ℕ
  pub revoked_at : Option ℕ
  pub expires_at : ℕ

abbrev pub hash_of : RefreshToken → ℕ
hash_of t = t.token_hash

-- The one kind of event in use.
pub data AuthEventType : Type 0 where
  refresh_token_reuse_detected : AuthEventType

-- auth-audit-event.entity.ts
pub record AuthAuditEvent : Type 0 where
  pub event_type : AuthEventType
  pub user_id : ℕ
  pub family_id : ℕ
  pub token_id : ℕ

-- user.entity.ts, the columns that the sessions read
pub record User : Type 0 where
  pub id : ℕ
  pub stellar_address : List ℕ

abbrev pub user_id_of : User → ℕ
user_id_of u = u.id

pub record SessionTokens : Type 0 where
  pub access_token : ℕ
  pub refresh_token : List ℕ

-- What a call draws at random: the raw token, and the identifiers of its row and of a new family.
pub record Drawn : Type 0 where
  pub raw : List ℕ
  pub row_id : ℕ
  pub family : ℕ

-- The digest, the signature over the user's identifier and address, and the configured lifetime.
pub record AuthConfig : Type 0 where
  pub sha256 : List ℕ → ℕ
  pub sign : ℕ → List ℕ → ℕ
  pub refresh_token_ttl_days : Option ℕ

-- `configured ?? DEFAULT_REFRESH_TOKEN_TTL_DAYS`
abbrev pub days_or_default : Option ℕ → ℕ
days_or_default none = 30
days_or_default (some days) = days

abbrev pub is_revoked : RefreshToken → Bool
is_revoked t = elim (t.revoked_at) [ none ↦ false | some _ ↦ true ]

-- The repositories of the tokens, unique by their hash, and of the users, with what the service
-- asks of each.
pub record AuthTables : Type 1 where
  pub tokens : RowTable RefreshToken hash_of
  pub users : RowTable User user_id_of

pub record Sessions (t : AuthTables) : Type 0 where
  pub tokens : t.tokens.rows.Store
  pub users : t.users.rows.Store
  pub audit_events : List AuthAuditEvent

module _ (c : AuthConfig) (t : AuthTables) where
  abbrev pub new_token : ℕ → ℕ → Option ℕ → ℕ → Drawn → RefreshToken
  new_token user family previous now d = record {
    id = d.row_id;
    user_id = user;
    family_id = family;
    token_hash = c.sha256 d.raw;
    previous_token_id = previous;
    revoked_at = none;
    expires_at = now + days_or_default c.refresh_token_ttl_days * 86_400_000;
  }

  abbrev pub save_token : RefreshToken → Sessions t → Sessions t
  save_token r s = record s { tokens = t.tokens.rows.save r s.tokens }

  -- `issueRefreshToken(userId, familyId, previousTokenId)`, which returns the raw token
  unfoldable pub issue_refresh_token : ℕ → ℕ → Option ℕ → ℕ → Drawn → Action (Sessions t) (List ℕ)
  issue_refresh_token user family previous now d s =
      (ok d.raw, save_token (new_token user family previous now d) s)

  -- The access token of a user beside a refresh token.
  abbrev pub tokens_of : User → List ℕ → SessionTokens
  tokens_of u raw = record { access_token = c.sign u.id u.stellar_address; refresh_token = raw }

  -- `createSession(user)`
  unfoldable pub create_session : User → ℕ → Drawn → Action (Sessions t) SessionTokens
  unfolding issue_refresh_token
  create_session u now d = do
    raw ← issue_refresh_token u.id d.family none now d
    pure (tokens_of u raw)

  abbrev pub in_family : ℕ → RefreshToken → Bool
  in_family f r = elim (r.revoked_at) [ none ↦ r.family_id == f | some _ ↦ false ]

  abbrev pub revoked : ℕ → RefreshToken → RefreshToken
  revoked now r = record r { revoked_at = some now }

  -- `update({ family_id, revoked_at: IsNull() }, { revoked_at: now })`
  abbrev pub revoke_family : ℕ → ℕ → Sessions t → Sessions t
  revoke_family f now s = record s {
    tokens = t.tokens.update_where (in_family f) (revoked now) s.tokens;
  }

  abbrev pub reuse_event : RefreshToken → AuthAuditEvent
  reuse_event r = record {
    event_type = refresh_token_reuse_detected;
    user_id = r.user_id;
    family_id = r.family_id;
    token_id = r.id;
  }

  abbrev pub record_event : AuthAuditEvent → Sessions t → Sessions t
  record_event e s = record s { audit_events = e ∷ s.audit_events }

  -- The branch of a token that was revoked before.
  unfoldable pub reject_reuse : RefreshToken → ℕ → Action (Sessions t) SessionTokens
  reject_reuse r now s =
      (err unauthorized, record_event (reuse_event r) (revoke_family r.family_id now s))

  abbrev pub find_user : ℕ → Sessions t → Option User
  find_user i s = t.users.rows.find_one i s.users

  -- The branch of a live token.
  unfoldable pub replace_token : RefreshToken → ℕ → Drawn → Action (Sessions t) SessionTokens
  unfolding issue_refresh_token
  replace_token r now d = do
    found ← gets (find_user r.user_id)
    user ← or_raise found unauthorized
    modify (save_token (revoked now r))
    raw ← issue_refresh_token user.id r.family_id (some r.id) now d
    pure (tokens_of user raw)

  abbrev pub rotate_found : Option RefreshToken → ℕ → Drawn → Action (Sessions t) SessionTokens
  rotate_found none now d = raise unauthorized
  rotate_found (some r) now d =
      if ltb r.expires_at now
      then raise unauthorized
      else if is_revoked r
      then reject_reuse r now
      else replace_token r now d

  -- `rotateRefreshToken(rawToken)`, at the time `now`
  unfoldable pub rotate_refresh_token : List ℕ → ℕ → Drawn → Action (Sessions t) SessionTokens
  unfolding reject_reuse replace_token
  rotate_refresh_token raw now d s =
      rotate_found (t.tokens.rows.find_one (c.sha256 raw) s.tokens) now d s
