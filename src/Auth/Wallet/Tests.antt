-- ===== src/Auth/Wallet/Tests.antt =====
-- A wallet that signs in twice within five minutes, over tables that are lists.
use stow.Prelude.{◌≡◌, refl, Bool, true, false, List, [], ◌∷◌, arith}
use stow.Prelude.Result.{err, unauthorized}
use stow.Auth.Entries.{Text}
use stow.Auth.Sample.{length_config, list_accounts, no_accounts}
use stow.Auth.Sessions.{Drawn, issue_refresh_token, create_session}
use stow.Auth.State.{ChallengeEntry, AuthState, cleanup_expired_challenges}
use stow.Auth.Wallet.{sign_in_user, verify_signature_with_status, verify_challenge}
use stow.Auth.Wallet.SignIns.{WalletCall, generates, cleans, step, steps, second_sign_in_refused}

abbrev any_signature : Text → Text → Text → Bool
any_signature address text signed = true

-- The text ':A', which ends with the separator and the address.
abbrev pending_challenge : Text
pending_challenge = 58 ∷ 65 ∷ []

abbrev pending_entry : ChallengeEntry
pending_entry = record { expires_at = 300_000; used = false }

abbrev one_pending : AuthState list_accounts
one_pending = record no_accounts { challenges = (pending_challenge, pending_entry) ∷ [] }

abbrev first_draw : Drawn
first_draw = record { raw = 1 ∷ []; row_id = 1; family = 1 }

abbrev between : List WalletCall
between = cleans 500 ∷ generates 1_000 (2 ∷ []) (65 ∷ []) ∷ []

second_sign_in_refused_example :
    let since =
      steps length_config list_accounts any_signature between
        (verify_challenge length_config list_accounts any_signature
          (65 ∷ [])
          []
          10
          7
          first_draw
          one_pending).1 in
    verify_challenge length_config list_accounts any_signature
      (65 ∷ [])
      (3 ∷ [])
      2_000
      8
      first_draw
      since
    ≡ (err unauthorized, since)
unfolding verify_signature_with_status verify_challenge sign_in_user create_session
    issue_refresh_token step cleanup_expired_challenges
second_sign_in_refused_example =
    second_sign_in_refused length_config list_accounts any_signature (65 ∷ []) [] (3 ∷ [])
      pending_challenge 10 2_000 7 8 first_draw pending_entry
      (record { id = 7; stellar_address = 65 ∷ [] }, true) between one_pending (refl, tt) refl refl
      refl (omega arith, (refl, tt)) (omega arith) (omega arith)
