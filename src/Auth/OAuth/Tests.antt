-- ===== src/Auth/OAuth/Tests.antt =====
-- Social sign-in over tables that are lists.
use stow.Prelude.{
  ℕ, zero, suc, ◌≡◌, refl, sym, ap, ◌∙◌, inl, inr, true, none, some, List, [], ◌∷◌, length, arith,
  some-eq, ◌==◌, Bool-cases,
}
use stow.Prelude.Table.{find_row}
use stow.Prelude.Rows.{list_rows}
use stow.Prelude.Result.{ok, err, unauthorized}
use stow.Auth.Entries.{Text}
use stow.Auth.Sessions.{
  hash_of, User, user_id_of, Drawn, AuthConfig, tokens_of, issue_refresh_token, create_session,
}
use stow.Auth.OAuth.{
  google, login, OAuthTransaction, transaction_id, OAuthIdentity, identity_id, login_code,
  OAuthConfig, OAuthTables, OAuthState, return_or_savings, consume_state,
}
use stow.Auth.OAuth.Callback.{
  complete_callback, complete_provider_error, provider_for_state, exchange_code,
  cleanup_expired_transactions,
}
use stow.Auth.OAuth.Spent.{OAuthCall, fails, cleans, step, steps}
use stow.Auth.OAuth.Exchange.{exchange_once}
use stow.Auth.OAuth.Replay.{consumed_state_reopens}

abbrev length_config : AuthConfig
length_config = record {
  sha256 = λ raw. length raw;
  sign = λ i a. i;
  refresh_token_ttl_days = none;
}

-- Every authorization code is that of subject 5.
abbrev one_subject : OAuthConfig
one_subject = record {
  auth = length_config;
  is_configured = λ p. true;
  fetch_profile = λ p code nonce. ok (record { subject = 5; email = none; display_name = none });
  resolve = λ path. some path;
}

abbrev list_tables : OAuthTables
list_tables = record {
  auth = record { tokens = list_rows hash_of; users = list_rows user_id_of };
  transactions = list_rows transaction_id;
  identities = list_rows identity_id;
}

abbrev alice : User
alice = record { id = 7; stellar_address = 65 ∷ [] }

abbrev alice_google : OAuthIdentity
alice_google = record {
  id = 1;
  user_id = 7;
  provider = google;
  provider_user_id = 5;
  email = none;
  display_name = none;
}

abbrev repeated : ℕ → List ℕ → List ℕ
repeated zero cs = cs
repeated (suc n) cs = 97 ∷ repeated n cs

-- A verifier of 43 letters.
abbrev verifier : Text
verifier = repeated 43 []

abbrev begun : OAuthTransaction
begun = record {
  id = 1;
  state_hash = 2;
  provider = google;
  intent = login;
  user_id = none;
  nonce = none;
  client_verifier_hash = 43;
  expires_at = 300_000;
  consumed_at = none;
  exchange_code_hash = none;
  exchanged_at = none;
  return_to = none;
}

-- The same with the one-time code of digest 3 for Alice.
abbrev coded : OAuthTransaction
coded = record begun { user_id = some 7; exchange_code_hash = some 3; expires_at = 60_000 }

abbrev with_transaction : OAuthTransaction → OAuthState list_tables
with_transaction r = record {
  transactions = r ∷ [];
  identities = alice_google ∷ [];
  sessions = record { tokens = []; users = alice ∷ []; audit_events = [] };
}

-- The only row of a list.
only_row : (x r : OAuthTransaction) → find_row transaction_id r.id (x ∷ []) ≡ some r → r ≡ x
only_row x r found = elim (Bool-cases (r.id == x.id)) [
  | inl same ↦ sym (some-eq (rw same at found))
  | inr other ↦ let wrong : none ≡ some r = rw other at found in absurd cc
]

abbrev drawn : Drawn
drawn = record { raw = 1 ∷ []; row_id = 1; family = 1 }

abbrev between : List OAuthCall
between = cleans 10 ∷ fails google (1 ∷ 1 ∷ []) true 20 ∷ []

exchange_once_example :
    let since =
      steps one_subject list_tables between
        (exchange_code one_subject list_tables
          (1 ∷ 1 ∷ 1 ∷ [])
          verifier
          5
          drawn
          (with_transaction coded)).1 in
    exchange_code one_subject list_tables (1 ∷ 1 ∷ 1 ∷ []) verifier 30 drawn since
    ≡ (err unauthorized, since)
unfolding exchange_code create_session issue_refresh_token step complete_provider_error
    consume_state cleanup_expired_transactions
exchange_once_example =
    exchange_once one_subject list_tables (1 ∷ 1 ∷ 1 ∷ []) verifier verifier 5 30 drawn drawn
      (tokens_of length_config (list_tables.auth) alice (1 ∷ []), alice) between
      (with_transaction coded)
      (λ r q stored stored' _ _.
        ap transaction_id (only_row coded r stored ∙ sym (only_row coded q stored')))
      refl (tt, (tt, tt))

consumed_state_reopens_example :
    let (first, s') =
      complete_callback one_subject list_tables google
        (1 ∷ 1 ∷ [])
        (9 ∷ [])
        (1 ∷ [])
        4
        100
        (with_transaction begun) in
    (first ≡ ok (login_code (1 ∷ []) (return_or_savings none)))
    × (provider_for_state one_subject list_tables (1 ∷ 1 ∷ []) 200 s' ≡ ok google)
    × ((complete_callback one_subject list_tables google (1 ∷ 1 ∷ []) (8 ∷ []) (2 ∷ []) 4 200 s').0
        ≡ ok (login_code (2 ∷ []) (return_or_savings none)))
consumed_state_reopens_example =
    consumed_state_reopens one_subject list_tables google (1 ∷ 1 ∷ []) (9 ∷ []) (8 ∷ []) (1 ∷ [])
      (2 ∷ []) 4 100 200 begun alice alice (with_transaction begun) refl refl refl refl refl
      (omega arith) refl (λ q stored same. ap transaction_id (only_row begun q stored))
      (
        refl,
        (record { subject = 5; email = none; display_name = none }, alice_google, refl, refl, refl),
      )
      (
        refl,
        (record { subject = 5; email = none; display_name = none }, alice_google, refl, refl, refl),
      )
      (omega arith)
