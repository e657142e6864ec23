-- ===== src/Auth/Wallet.antt =====
-- backend/src/auth/auth.service.ts, the sign-in with a wallet: a challenge is issued for an address
-- and kept in a map, and a signature over it by the address's key starts a session.
pub mod Locked
pub mod SignIns
mod Tests
use stow.Prelude.{
  ℕ, ◌+◌, Bool, true, false, Option, none, some, List, [], ◌∷◌, ◌++◌, ltb, not, ◌&&◌, if◌then◌else◌,
}
use stow.Prelude.Result.{
  Result, ok, err, unauthorized, type_error, Action, raise, pure, gets, modify, then_do, ◌>>=◌,
  ◌>>◌,
}
use stow.Signing.Decimal.{to_text}
use stow.Auth.Entries.{
  Text, same_text, ends_with, find_entry, set_entry, change_entry, delete_entry,
}
use stow.Auth.Sessions.{
  User, SessionTokens, Drawn, AuthConfig, AuthTables, Sessions, create_session,
}
use stow.Auth.State.{
  ChallengeEntry, UserPreferences, AccountTables, AuthState, on_sessions, new_entry, use_entry,
}

-- 'InsightArena:nonce:'
abbrev pub nonce_prefix : Text
nonce_prefix =
    73 ∷ 110 ∷ 115 ∷ 105 ∷ 103 ∷ 104 ∷ 116 ∷ 65 ∷ 114 ∷ 101 ∷ 110 ∷ 97 ∷ 58 ∷ 110 ∷ 111 ∷ 110 ∷ 99
    ∷ 101 ∷ 58 ∷ []

abbrev pub challenge_text : ℕ → Text → Text → Text
challenge_text now random address =
    nonce_prefix ++ (to_text now ++ (58 ∷ (random ++ (58 ∷ address))))

-- The key of an entry that is not expired and ends with the address.
abbrev pub find_valid_challenge_for_address : Text → ℕ → List (Text × ChallengeEntry) → Option Text
find_valid_challenge_for_address address now [] = none
find_valid_challenge_for_address address now ((k, e) ∷ m) =
    if ends_with (58 ∷ address) k && not (ltb e.expires_at now)
    then some k
    else find_valid_challenge_for_address address now m

-- `verify_signature`: of an address, over a text; a malformed key or signature is a wrong one
-- (`Keypair` of the Stellar SDK).
module _ (c : AuthConfig) (t : AccountTables) (verify_signature : Text → Text → Text → Bool) where
  abbrev pub set_challenges : List (Text × ChallengeEntry) → AuthState t → AuthState t
  set_challenges m s = record s { challenges = m }

  -- `generateChallenge(stellar_address)`
  unfoldable pub generate_challenge : ℕ → Text → Text → AuthState t → Text × AuthState t
  generate_challenge now random address s =
      let challenge = challenge_text now random address in
      (challenge, set_challenges (set_entry challenge (new_entry now) s.challenges) s)

  -- `removeChallenge(challenge)`
  unfoldable pub remove_challenge : Text → AuthState t → AuthState t
  remove_challenge challenge s = set_challenges (delete_entry challenge s.challenges) s

  abbrev pub check_entry : Option ChallengeEntry → Text → ℕ → AuthState t → Bool × AuthState t
  check_entry none challenge now s = (false, s)
  check_entry (some e) challenge now s =
      if ltb e.expires_at now
      then (false, set_challenges (delete_entry challenge s.challenges) s)
      else (true, s)

  -- `isValidChallenge(challenge)`
  unfoldable pub is_valid_challenge : Text → ℕ → AuthState t → Bool × AuthState t
  is_valid_challenge challenge now s =
      check_entry (find_entry challenge s.challenges) challenge now s

  -- The user of the address and whether the user is new; `fresh` is the identifier of a new one.
  abbrev pub user_or_new : Option User → ℕ → Text → User × Bool
  user_or_new (some u) fresh address = (u, false)
  user_or_new none fresh address = (record { id = fresh; stellar_address = address }, true)

  abbrev pub has_address : Text → User → Bool
  has_address address u = same_text u.stellar_address address

  abbrev pub save_user : User → AuthState t → AuthState t
  save_user u s =
      let sessions : Sessions t.auth = record s.sessions {
        users = t.auth.users.rows.save u s.sessions.users;
      } in
      record s { sessions = sessions }

  abbrev pub add_preferences : ℕ → AuthState t → AuthState t
  add_preferences user s = elim (t.preferences.find_one user s.preferences) [
    | some existing ↦ s
    | none ↦ record s { preferences = t.preferences.save (record { user_id = user }) s.preferences }
  ]

  abbrev pub if_new : Bool → ℕ → AuthState t → AuthState t
  if_new true user s = add_preferences user s
  if_new false user s = s

  -- The upsert of the user.
  unfoldable pub sign_in_user : ℕ → Text → Action (AuthState t) (User × Bool)
  sign_in_user fresh address s =
      let (u, is_new) =
        user_or_new (t.auth.users.find_where (has_address address) s.sessions.users) fresh
          address in
      (ok (u, is_new), if_new is_new u.id (save_user u s))

  abbrev pub verify_entry :
      Option ChallengeEntry → Text → Text → Text → ℕ → Action (AuthState t) (User × Bool)
  verify_entry none challenge address signed fresh = raise type_error
  verify_entry (some e) challenge address signed fresh =
      if e.used
      then raise unauthorized
      else if verify_signature address challenge signed
      then (do
        modify (λ s. set_challenges (change_entry use_entry challenge s.challenges) s)
        sign_in_user fresh address)
      else raise unauthorized

  abbrev pub verify_found : Option Text → Text → Text → ℕ → Action (AuthState t) (User × Bool)
  verify_found none address signed fresh s = (err unauthorized, s)
  verify_found (some challenge) address signed fresh s =
      verify_entry (find_entry challenge s.challenges) challenge address signed fresh s

  -- `verifySignatureWithStatus(stellar_address, signed_challenge)`
  unfoldable pub verify_signature_with_status :
      Text → Text → ℕ → ℕ → Action (AuthState t) (User × Bool)
  unfolding sign_in_user
  verify_signature_with_status address signed now fresh s =
      verify_found (find_valid_challenge_for_address address now s.challenges) address signed fresh
        s

  abbrev pub start_session :
      ℕ → Drawn → User × Bool → Action (AuthState t) (SessionTokens × User × Bool)
  start_session now d found = do
    session ← on_sessions t (create_session c t.auth found.0 now d)
    pure (session, found.0, found.1)

  -- `verifyChallenge(stellar_address, signed_challenge)`
  unfoldable pub verify_challenge :
      Text → Text → ℕ → ℕ → Drawn → Action (AuthState t) (SessionTokens × User × Bool)
  unfolding verify_signature_with_status create_session
  verify_challenge address signed now fresh d s =
      then_do (start_session now d) (verify_signature_with_status address signed now fresh s)
