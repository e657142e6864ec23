-- ===== src/Auth/Passkeys/Registered.antt =====
-- backend/src/auth/auth.service.ts: a passkey from its registration to a sign-in.
use stow.Prelude.{
  ℕ, ◌+◌, ◌≤◌, ◌≡◌, refl, ap, ◌∙◌, inl, inr, false, none, some, List, [], ◌∷◌, arith, ltb, ==_refl,
  Bool-cases,
}
use stow.Prelude.Table.{find_one-save_self}
use stow.Prelude.Result.{ok}
use stow.Auth.Entries.{Text, same_text, same_text_refl, find_entry, set_entry}
use stow.Auth.Sessions.{User, Drawn, AuthConfig, tokens_of, issue_refresh_token}
use stow.Auth.State.{WebAuthnCredential, AccountTables, AuthState, ttl_ms, new_entry}
use stow.Auth.Passkeys.{
  PasskeyResponse, RegistrationInfo, WebAuthn, extract_challenge, begin_passkey_authentication,
  find_credential, find_user, assert_credential, finish_passkey_authentication, new_registration,
  begin_passkey_registration, new_credential, attest_credential, finish_passkey_registration,
}

-- What was put under a new key is found.
find_entry-set_entry :
    {V : Type 0} (k : Text) (v : V) (m : List (Text × V)) → find_entry k (set_entry k v m) ≡ some v
find_entry-set_entry k v [] = rw (same_text_refl k) refl
find_entry-set_entry k v ((j, w) ∷ m) = elim (Bool-cases (same_text k j)) [
  | inl same ↦ rw same (rw same refl)
  | inr other ↦ rw other (rw other (find_entry-set_entry k v m))
]

module _ (v : WebAuthn) (c : AuthConfig) (t : AccountTables) where
  begun_registration :
      (user now later : ℕ) (ch : Text) (a : PasskeyResponse) (info : RegistrationInfo)
      (s : AuthState t)
      → later ≤ now + ttl_ms
      → extract_challenge v c t a ≡ ok ch
      → v.verify_attestation a ch ≡ some info
      → find_credential v c t info.credential_id s ≡ none
      → let (done, s') =
          finish_passkey_registration v c t user a later
            (begin_passkey_registration v c t user ch now s) in
        (done ≡ ok (new_credential v c t user info))
        × (find_credential v c t info.credential_id s' ≡ some (new_credential v c t user info))
        × (s'.sessions ≡ s.sessions)
  unfolding finish_passkey_registration begin_passkey_registration attest_credential
  begun_registration user now later ch a info s young holds verified free =
      let entry =
        find_entry-set_entry ch (new_registration v c t user now) s.registration_challenges in
      let current : ltb (now + ttl_ms) later ≡ false = ground arith in
      let saved =
        find_one-save_self t.credentials info.credential_id (new_credential v c t user info)
          s.credentials refl in
      rw (holds, entry, current, ==_refl user) (rw (verified, free) (refl, saved, refl))

  begun_authentication :
      (now later : ℕ) (ch : Text) (a : PasskeyResponse) (k : WebAuthnCredential) (counter : ℕ)
      (u : User) (d : Drawn) (s : AuthState t)
      → later ≤ now + ttl_ms
      → extract_challenge v c t a ≡ ok ch
      → find_credential v c t a.id s ≡ some k
      → v.verify_assertion a ch k ≡ some counter
      → find_user v c t k.user_id s ≡ some u
      → (finish_passkey_authentication v c t a later d
          (begin_passkey_authentication v c t ch now s)).0
        ≡ ok (tokens_of c t.auth u d.raw, u)
  unfolding finish_passkey_authentication begin_passkey_authentication assert_credential
      issue_refresh_token
  begun_authentication now later ch a k counter u d s young holds found verified user =
      let entry = find_entry-set_entry ch (new_entry now) s.passkey_challenges in
      let current : ltb (now + ttl_ms) later ≡ false = ground arith in
      rw (holds, entry, current) (rw (found, verified) (rw user refl))

  -- A user begins a registration and finishes it within five minutes with an attestation that the
  -- library verifies for a credential that is not stored: it is stored for that user. The user is
  -- stored, begins a sign-in and finishes it within five minutes with an assertion of that
  -- credential that the library verifies: the session is that user's.
  pub registered_signs_in :
      (u : User) (t0 t1 t2 t3 counter : ℕ) (ch ch' : Text) (a a' : PasskeyResponse)
      (info : RegistrationInfo) (d : Drawn) (s : AuthState t)
      → t1 ≤ t0 + ttl_ms
      → t3 ≤ t2 + ttl_ms
      → extract_challenge v c t a ≡ ok ch
      → v.verify_attestation a ch ≡ some info
      → find_credential v c t info.credential_id s ≡ none
      → extract_challenge v c t a' ≡ ok ch'
      → a'.id ≡ info.credential_id
      → v.verify_assertion a' ch' (new_credential v c t u.id info) ≡ some counter
      → find_user v c t u.id s ≡ some u
      → let (done, s') =
          finish_passkey_registration v c t u.id a t1
            (begin_passkey_registration v c t u.id ch t0 s) in
        (done ≡ ok (new_credential v c t u.id info))
        × ((finish_passkey_authentication v c t a' t3 d
              (begin_passkey_authentication v c t ch' t2 s')).0
            ≡ ok (tokens_of c t.auth u d.raw, u))
  registered_signs_in u t0 t1 t2 t3 counter ch ch' a a' info d s young young' holds verified free
        holds' is verified' user =
      let (done, stored, same) =
        begun_registration u.id t0 t1 ch a info s young holds verified free in
      let s' =
        (finish_passkey_registration v c t u.id a t1
          (begin_passkey_registration v c t u.id ch t0 s)).1 in
      (
        done,
        begun_authentication t2 t3 ch' a' (new_credential v c t u.id info) counter u d s' young'
            holds' (ap (λ i. find_credential v c t i s') is ∙ stored) verified'
            (ap (λ x. t.auth.users.rows.find_one u.id x.users) same ∙ user),
      )
