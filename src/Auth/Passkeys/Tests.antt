-- ===== src/Auth/Passkeys/Tests.antt =====
-- Passkeys of one user.
use stow.Prelude.{ℕ, ◌+◌, ◌≡◌, refl, false, none, some, List, [], ◌∷◌, arith}
use stow.Prelude.Result.{ok, err, unauthorized}
use stow.Auth.Sample.{length_config, list_tables, list_accounts, no_accounts}
use stow.Auth.Sessions.{User, Drawn, Sessions, tokens_of, issue_refresh_token}
use stow.Auth.State.{WebAuthnCredential, AuthState, cleanup_expired_challenges}
use stow.Auth.Passkeys.{
  PasskeyResponse, WebAuthn, begin_passkey_authentication, assert_credential,
  finish_passkey_authentication, new_credential, begin_passkey_registration,
  finish_passkey_registration,
}
use stow.Auth.Passkeys.Once.{PasskeyCall, begins, cleans, step, steps, authenticated_once}
use stow.Auth.Passkeys.Registered.{registered_signs_in}

-- The client data is the one character of the challenge, and everything verifies.
abbrev one_character : WebAuthn
one_character = record {
  challenge_of = λ x. some (x ∷ []);
  verify_assertion = λ a ch k. some (k.counter + 1);
  verify_attestation =
      λ a ch. some (record { credential_id = a.id; public_key = a.proof; counter = 0 });
}

abbrev alice : User
alice = record { id = 7; stellar_address = 65 ∷ [] }

abbrev alice_signed_up : Sessions list_tables
alice_signed_up = record { tokens = []; users = alice ∷ []; audit_events = [] }

abbrev alice_key : WebAuthnCredential
alice_key = record {
  user_id = 7;
  credential_id = 9;
  public_key = 3;
  counter = 0;
  last_used_at = none;
}

abbrev drawn : Drawn
drawn = record { raw = 1 ∷ []; row_id = 1; family = 1 }

abbrev response : ℕ → PasskeyResponse
response x = record { id = 9; client_data = x; proof = 3 }

-- A sign-in of Alice is pending with the challenge of the character 4.
abbrev pending : AuthState list_accounts
pending = record no_accounts {
  sessions = alice_signed_up;
  credentials = alice_key ∷ [];
  passkey_challenges = (4 ∷ [], record { expires_at = 100; used = false }) ∷ [];
}

abbrev between : List PasskeyCall
between = begins (5 ∷ []) 20 ∷ cleans 30 ∷ []

authenticated_once_example :
    let since =
      steps one_character length_config list_accounts between
        (finish_passkey_authentication one_character length_config list_accounts
          (response 4)
          10
          drawn
          pending).1 in
    finish_passkey_authentication one_character length_config list_accounts
      (response 4)
      40
      drawn
      since
    ≡ (err unauthorized, since)
unfolding finish_passkey_authentication assert_credential issue_refresh_token step
    begin_passkey_authentication cleanup_expired_challenges
authenticated_once_example =
    authenticated_once one_character length_config list_accounts (response 4) (response 4) (4 ∷ [])
      10 40 drawn drawn (tokens_of length_config list_tables alice (1 ∷ []), alice) between pending
      (refl, tt) refl refl refl ((λ e. five-ne-four e), (tt, tt))
  where
    five-ne-four : ¬ (◌≡◌ {A = List ℕ} (5 ∷ []) (4 ∷ []))
    five-ne-four e = absurd (ground arith)

registered_signs_in_example :
    let (done, s') =
      finish_passkey_registration one_character length_config list_accounts 7 (response 2) 10 (
        begin_passkey_registration one_character length_config list_accounts 7
          (2 ∷ [])
          0
          (record no_accounts { sessions = alice_signed_up })) in
    (done
      ≡ ok (
          new_credential one_character length_config list_accounts 7
            (record { credential_id = 9; public_key = 3; counter = 0 })))
    × ((finish_passkey_authentication one_character length_config list_accounts
          (response 4)
          30
          drawn
          (begin_passkey_authentication one_character length_config list_accounts (4 ∷ []) 20 s')).0
        ≡ ok (tokens_of length_config list_tables alice (1 ∷ []), alice))
registered_signs_in_example =
    registered_signs_in one_character length_config list_accounts alice 0 10 20 30 1 (2 ∷ [])
      (4 ∷ []) (response 2) (response 4) (record { credential_id = 9; public_key = 3; counter = 0 })
      drawn (record no_accounts { sessions = alice_signed_up }) (omega arith) (omega arith) refl
      refl refl refl refl refl refl
