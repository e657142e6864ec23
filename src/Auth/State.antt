-- ===== src/Auth/State.antt =====
-- The state of backend/src/auth/auth.service.ts: the sessions with the users, the preferences, the
-- passkeys, and the three maps of pending challenges.
use stow.Prelude.{ℕ, ◌+◌, Bool, true, false, Option, List, ltb, not}
use stow.Prelude.Table.{Table}
use stow.Prelude.Result.{Action}
use stow.Auth.Entries.{Text, keep_entries}
use stow.Auth.Sessions.{AuthTables, Sessions}

pub record ChallengeEntry : Type 0 where
  pub expires_at : ℕ
  pub used : Bool

-- The entry of a registration names the user who began it.
pub record RegistrationEntry : Type 0 where
  pub user_id : ℕ
  pub expires_at : ℕ
  pub used : Bool

-- user-preferences.entity.ts, of which only the existence matters here
pub record UserPreferences : Type 0 where
  pub user_id : ℕ

abbrev pub owner_of : UserPreferences → ℕ
owner_of p = p.user_id

-- webauthn-credential.entity.ts; identifiers and keys of credentials are opaque
pub record WebAuthnCredential : Type 0 where
  pub user_id : ℕ
  pub credential_id : ℕ
  pub public_key : ℕ
  pub counter : ℕ
  pub last_used_at : Option ℕ

abbrev pub credential_id_of : WebAuthnCredential → ℕ
credential_id_of w = w.credential_id

pub record AccountTables : Type 1 where
  pub auth : AuthTables
  pub preferences : Table UserPreferences owner_of
  pub credentials : Table WebAuthnCredential credential_id_of

pub record AuthState (t : AccountTables) : Type 0 where
  pub sessions : Sessions t.auth
  pub preferences : t.preferences.Store
  pub credentials : t.credentials.Store
  pub challenges : List (Text × ChallengeEntry)
  pub passkey_challenges : List (Text × ChallengeEntry)
  pub registration_challenges : List (Text × RegistrationEntry)

-- A call on the sessions as one on the whole state.
abbrev pub on_sessions :
    (t : AccountTables) {A : Type 0} → Action (Sessions t.auth) A → Action (AuthState t) A
on_sessions t m s = let (r, sessions) = m s.sessions in (r, record s { sessions = sessions })

-- `TTL_MS` and `PASSKEY_TTL_MS`, five minutes
abbrev pub ttl_ms : ℕ
ttl_ms = 300_000

abbrev pub new_entry : ℕ → ChallengeEntry
new_entry now = record { expires_at = now + ttl_ms; used = false }

abbrev pub use_entry : ChallengeEntry → ChallengeEntry
use_entry e = record e { used = true }

-- `cleanupExpiredChallenges()`, at the time `now`
unfoldable pub cleanup_expired_challenges : (t : AccountTables) → ℕ → AuthState t → AuthState t
cleanup_expired_challenges t now s = record s {
  challenges = keep_entries (λ e. not (ltb e.expires_at now)) s.challenges;
  passkey_challenges = keep_entries (λ e. not (ltb e.expires_at now)) s.passkey_challenges;
  registration_challenges =
      keep_entries (λ e. not (ltb e.expires_at now)) s.registration_challenges;
}
