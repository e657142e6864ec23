-- ===== src/Auth/Passkeys.antt =====
-- backend/src/auth/auth.service.ts, the passkeys: their registration for a user who is signed in,
-- and the sign-in with one. The WebAuthn library, the decoding of the client's data and the random
-- challenges are parameters, and the options that the browser gets are left out but for the
-- challenge.
pub mod Once
pub mod Registered
mod Tests
use stow.Prelude.{
  ℕ, ◌+◌, Bool, true, false, not, Option, none, some, List, [], ◌∷◌, ltb, ◌==◌, ◌&&◌, ◌||◌,
  if◌then◌else◌,
}
use stow.Prelude.Result.{
  Result, ok, err, unauthorized, Action, raise, raise_if, or_raise, lift, pure, gets, modify,
  then_do, ◌>>=◌, ◌>>◌,
}
use stow.Auth.Entries.{Text, find_entry, set_entry, change_entry}
use stow.Auth.Sessions.{User, SessionTokens, Drawn, AuthConfig, tokens_of, issue_refresh_token}
use stow.Auth.State.{
  ChallengeEntry, RegistrationEntry, WebAuthnCredential, AccountTables, AuthState, on_sessions,
  ttl_ms, new_entry, use_entry,
}

-- A response of the browser: the credential's identifier, and the client's data and the proof,
-- which are opaque.
pub record PasskeyResponse : Type 0 where
  pub id : ℕ
  pub client_data : ℕ
  pub proof : ℕ

-- A verified new credential.
pub record RegistrationInfo : Type 0 where
  pub credential_id : ℕ
  pub public_key : ℕ
  pub counter : ℕ

-- The challenge that the client's data holds; what a verified assertion gives as the new counter,
-- and what a verified attestation gives. Where the library throws or does not verify, nothing.
pub record WebAuthn : Type 0 where
  pub challenge_of : ℕ → Option Text
  pub verify_assertion : PasskeyResponse → Text → WebAuthnCredential → Option ℕ
  pub verify_attestation : PasskeyResponse → Text → Option RegistrationInfo

-- A challenge that was not used and has not expired.
abbrev pub is_pending : Option ChallengeEntry → ℕ → Bool
is_pending none now = false
is_pending (some e) now = not e.used && not (ltb e.expires_at now)

module _ (w : WebAuthn) (c : AuthConfig) (t : AccountTables) where
  abbrev not_empty : Option Text → Result Text
  not_empty none = err unauthorized
  not_empty (some []) = err unauthorized
  not_empty (some (x ∷ xs)) = ok (x ∷ xs)

  -- `extractChallengeFromClientData(clientDataJSON)`
  abbrev pub extract_challenge : PasskeyResponse → Result Text
  extract_challenge a = not_empty (w.challenge_of a.client_data)

  abbrev pub set_passkey_challenges : List (Text × ChallengeEntry) → AuthState t → AuthState t
  set_passkey_challenges m s = record s { passkey_challenges = m }

  abbrev pub set_registrations : List (Text × RegistrationEntry) → AuthState t → AuthState t
  set_registrations m s = record s { registration_challenges = m }

  -- `beginPasskeyAuthentication()`, with the challenge of the library
  unfoldable pub begin_passkey_authentication : Text → ℕ → AuthState t → AuthState t
  begin_passkey_authentication challenge now s =
      set_passkey_challenges (set_entry challenge (new_entry now) s.passkey_challenges) s

  abbrev pub find_credential : ℕ → AuthState t → Option WebAuthnCredential
  find_credential i s = t.credentials.find_one i s.credentials

  abbrev pub save_credential : WebAuthnCredential → AuthState t → AuthState t
  save_credential k s = record s { credentials = t.credentials.save k s.credentials }

  abbrev pub find_user : ℕ → AuthState t → Option User
  find_user i s = t.auth.users.rows.find_one i s.sessions.users

  -- The session of the owner of a credential.
  abbrev pub session_of_owner : ℕ → ℕ → Drawn → Action (AuthState t) (SessionTokens × User)
  session_of_owner owner now d = do
    found ← gets (find_user owner)
    u ← or_raise found unauthorized
    raw ← on_sessions t (issue_refresh_token c t.auth u.id d.family none now d)
    pure (tokens_of c t.auth u raw, u)

  abbrev pub mark_used : Text → AuthState t → AuthState t
  mark_used challenge s =
      set_passkey_challenges (change_entry use_entry challenge s.passkey_challenges) s

  abbrev pub counted : WebAuthnCredential → ℕ → ℕ → WebAuthnCredential
  counted k counter now = record k { counter = counter; last_used_at = some now }

  -- What follows a pending challenge.
  unfoldable pub assert_credential :
      PasskeyResponse → Text → ℕ → Drawn → Action (AuthState t) (SessionTokens × User)
  unfolding issue_refresh_token
  assert_credential a challenge now d = do
    stored ← gets (find_credential a.id)
    k ← or_raise stored unauthorized
    counter ← or_raise (w.verify_assertion a challenge k) unauthorized
    modify (mark_used challenge)
    modify (save_credential (counted k counter now))
    session_of_owner k.user_id now d

  abbrev pub authenticate :
      Result Text → PasskeyResponse → ℕ → Drawn → Action (AuthState t) (SessionTokens × User)
  authenticate (err e) a now d s = (err e, s)
  authenticate (ok challenge) a now d s =
      if is_pending (find_entry challenge s.passkey_challenges) now
      then assert_credential a challenge now d s
      else (err unauthorized, s)

  -- `finishPasskeyAuthentication(assertionResponse)`
  unfoldable pub finish_passkey_authentication :
      PasskeyResponse → ℕ → Drawn → Action (AuthState t) (SessionTokens × User)
  unfolding assert_credential
  finish_passkey_authentication a now d s = authenticate (extract_challenge a) a now d s

  abbrev pub new_registration : ℕ → ℕ → RegistrationEntry
  new_registration user now = record { user_id = user; expires_at = now + ttl_ms; used = false }

  -- `beginPasskeyRegistration(user)`, with the challenge of the library
  unfoldable pub begin_passkey_registration : ℕ → Text → ℕ → AuthState t → AuthState t
  begin_passkey_registration user challenge now s =
      set_registrations (set_entry challenge (new_registration user now) s.registration_challenges)
        s

  abbrev pub is_registering : Option RegistrationEntry → ℕ → ℕ → Bool
  is_registering none user now = false
  is_registering (some e) user now = not e.used && not (ltb e.expires_at now) && e.user_id == user

  abbrev use_registration : RegistrationEntry → RegistrationEntry
  use_registration e = record e { used = true }

  abbrev pub mark_registered : Text → AuthState t → AuthState t
  mark_registered challenge s =
      set_registrations (change_entry use_registration challenge s.registration_challenges) s

  abbrev pub new_credential : ℕ → RegistrationInfo → WebAuthnCredential
  new_credential user info = record {
    user_id = user;
    credential_id = info.credential_id;
    public_key = info.public_key;
    counter = info.counter;
    last_used_at = none;
  }

  abbrev pub add_credential :
      Option WebAuthnCredential → WebAuthnCredential → Action (AuthState t) WebAuthnCredential
  add_credential (some existing) k s = (err unauthorized, s)
  add_credential none k s = (ok k, save_credential k s)

  -- What follows a pending registration of the user.
  unfoldable pub attest_credential :
      ℕ → PasskeyResponse → Text → Action (AuthState t) WebAuthnCredential
  attest_credential user a challenge = do
    info ← or_raise (w.verify_attestation a challenge) unauthorized
    modify (mark_registered challenge)
    existing ← gets (find_credential info.credential_id)
    add_credential existing (new_credential user info)

  abbrev pub register :
      Result Text → ℕ → PasskeyResponse → ℕ → Action (AuthState t) WebAuthnCredential
  register (err e) user a now s = (err e, s)
  register (ok challenge) user a now s =
      if is_registering (find_entry challenge s.registration_challenges) user now
      then attest_credential user a challenge s
      else (err unauthorized, s)

  -- `finishPasskeyRegistration(user, attestationResponse)`
  unfoldable pub finish_passkey_registration :
      ℕ → PasskeyResponse → ℕ → Action (AuthState t) WebAuthnCredential
  unfolding attest_credential
  finish_passkey_registration user a now s = register (extract_challenge a) user a now s
