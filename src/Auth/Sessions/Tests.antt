-- ===== src/Auth/Sessions/Tests.antt =====
-- Sessions over tables that are lists, with the length of a text as its digest.
use stow.Prelude.{ℕ, ◌+◌, ◌≡◌, refl, none, some, List, [], ◌∷◌, length, arith}
use stow.Prelude.Rows.{list_rows}
use stow.Prelude.Result.{ok, err, unauthorized}
use stow.Auth.Sessions.{
  RefreshToken, hash_of, User, user_id_of, Drawn, AuthConfig, AuthTables, Sessions, tokens_of,
  reuse_event, issue_refresh_token, create_session, reject_reuse, rotate_refresh_token,
}
use stow.Auth.Sessions.Calls.{SessionCall, logs_in, rotates, step, steps}
use stow.Auth.Sessions.Reuse.{reuse_ends_family}
use stow.Auth.Sessions.Linear.{IsLinear, AllDrawUnused, steps-IsLinear}
use stow.Auth.Sessions.Lifecycle.{create_session-rotate}

abbrev length_config : AuthConfig
length_config = record {
  sha256 = λ raw. length raw;
  sign = λ i a. i + length a;
  refresh_token_ttl_days = none;
}

abbrev list_tables : AuthTables
list_tables = record { tokens = list_rows hash_of; users = list_rows user_id_of }

abbrev alice : User
alice = record { id = 7; stellar_address = 71 ∷ [] }

abbrev drawn : List ℕ → ℕ → ℕ → Drawn
drawn raw row family = record { raw = raw; row_id = row; family = family }

abbrev only_alice : Sessions list_tables
only_alice = record { tokens = []; users = alice ∷ []; audit_events = [] }

-- Alice's second token of family 3, and the first, which was rotated.
abbrev second_token : RefreshToken
second_token = record {
  id = 2;
  user_id = 7;
  family_id = 3;
  token_hash = 2;
  previous_token_id = some 1;
  revoked_at = none;
  expires_at = 1_000;
}

abbrev first_token : RefreshToken
first_token = record second_token {
  id = 1;
  token_hash = 1;
  previous_token_id = none;
  revoked_at = some 10;
}

abbrev rotated_once : Sessions list_tables
rotated_once = record {
  tokens = first_token ∷ second_token ∷ [];
  users = alice ∷ [];
  audit_events = [];
}

abbrev third_draw : Drawn
third_draw = drawn (1 ∷ 1 ∷ 1 ∷ []) 5 4

reuse_ends_family_example :
    let s' =
      (rotate_refresh_token length_config list_tables (9 ∷ []) 20 third_draw rotated_once).1 in
    ((rotate_refresh_token length_config list_tables (9 ∷ []) 20 third_draw rotated_once).0
      ≡ err unauthorized)
    × (s'.audit_events ≡ reuse_event length_config list_tables first_token ∷ [])
    × ((rotate_refresh_token length_config list_tables
          (9 ∷ 9 ∷ [])
          30
          third_draw
          (steps length_config list_tables (logs_in alice 25 third_draw ∷ []) s')).0
        ≡ err unauthorized)
unfolding rotate_refresh_token step create_session issue_refresh_token reject_reuse
reuse_ends_family_example =
    reuse_ends_family length_config list_tables (9 ∷ []) 20 third_draw first_token rotated_once refl
      (omega arith) refl (logs_in alice 25 third_draw ∷ []) (omega arith, tt) (9 ∷ 9 ∷ []) 30
      third_draw (record second_token { revoked_at = some 20 }) refl refl

none-ne-some : {r : RefreshToken} → ¬ (none ≡ some r)
none-ne-some e = cc

alone-IsLinear : IsLinear length_config list_tables only_alice
alone-IsLinear r q live live' same = absurd (none-ne-some live.0)

abbrev signs_in_and_rotates : List SessionCall
signs_in_and_rotates =
    logs_in alice 0 (drawn (1 ∷ []) 1 3) ∷ rotates (5 ∷ []) 10 (drawn (1 ∷ 1 ∷ []) 2 0) ∷ []

draws_unused : AllDrawUnused length_config list_tables signs_in_and_rotates only_alice
draws_unused = ((λ r stored same. absurd (none-ne-some stored)), (tt, tt))

steps-IsLinear_example :
    IsLinear length_config list_tables
      (steps length_config list_tables signs_in_and_rotates only_alice)
steps-IsLinear_example =
    steps-IsLinear length_config list_tables signs_in_and_rotates only_alice draws_unused
      alone-IsLinear

create_session-rotate_example :
    let d = drawn (1 ∷ []) 1 3 in
    let d' = drawn (1 ∷ 1 ∷ []) 2 0 in
    let (started, s') = create_session length_config list_tables alice 0 d only_alice in
    let (rotated, s'') = rotate_refresh_token length_config list_tables (1 ∷ []) 10 d' s' in
    let (reused, ended) = rotate_refresh_token length_config list_tables (1 ∷ []) 20 d s'' in
    (started ≡ ok (tokens_of length_config list_tables alice (1 ∷ [])))
    × (rotated ≡ ok (tokens_of length_config list_tables alice (1 ∷ 1 ∷ [])))
    × (reused ≡ err unauthorized)
    × ((rotate_refresh_token length_config list_tables (1 ∷ 1 ∷ []) 30 d ended).0
        ≡ err unauthorized)
create_session-rotate_example =
    create_session-rotate length_config list_tables alice 0 10 20 30 (drawn (1 ∷ []) 1 3)
      (drawn (1 ∷ 1 ∷ []) 2 0) (drawn (1 ∷ []) 1 3) (drawn (1 ∷ []) 1 3) only_alice refl
      (omega arith) (omega arith) (omega arith)
