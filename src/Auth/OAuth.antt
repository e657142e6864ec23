-- ===== src/Auth/OAuth.antt =====
-- backend/src/auth/oauth.service.ts: sign-in with a social account, and the linking of one. `begin`
-- stores a transaction under a random state, the provider's callback consumes the state, and the
-- client exchanges a one-time code for a session. The requests to the providers are a parameter,
-- `fetch_profile`, and so is the resolution of URLs; the digests that are stored are taken for
-- digests, so their form is not tested. URLs are given by what they carry.
pub mod Callback
pub mod Spent
pub mod Exchange
pub mod Replay
mod Tests
use stow.Prelude.{
  ℕ, ◌+◌, Bool, true, false, not, Option, none, some, List, [], ◌∷◌, length, take, ltb, leb, ◌==◌,
  ◌&&◌, ◌||◌, if◌then◌else◌,
}
use stow.Prelude.Rows.{RowTable}
use stow.Prelude.Result.{
  Result, ok, err, bad_request, unauthorized, service_unavailable, Action, raise, raise_if,
  or_raise, lift, pure, gets, modify, ◌>>=◌, ◌>>◌,
}
use stow.Auth.Entries.{Text}
use stow.Auth.Sessions.{
  User, SessionTokens, Drawn, AuthConfig, AuthTables, Sessions, create_session,
}

pub data Provider : Type 0 where
  google apple github : Provider

pub data Intent : Type 0 where
  login link : Intent

abbrev pub same_provider : Provider → Provider → Bool
same_provider google google = true
same_provider apple apple = true
same_provider github github = true
same_provider _ _ = false

abbrev pub is_none {ℓ} : {A : Type ℓ} → Option A → Bool
is_none none = true
is_none (some _) = false

-- oauth-transaction.entity.ts
pub record OAuthTransaction : Type 0 where
  pub id : ℕ
  pub state_hash : ℕ
  pub provider : Provider
  pub intent : Intent
  pub user_id : Option ℕ
  pub nonce : Option Text
  pub client_verifier_hash : ℕ
  pub expires_at : ℕ
  pub consumed_at : Option ℕ
  pub exchange_code_hash : Option ℕ
  pub exchanged_at : Option ℕ
  pub return_to : Option Text

abbrev pub transaction_id : OAuthTransaction → ℕ
transaction_id r = r.id

-- oauth-identity.entity.ts; subjects, addresses and names are opaque
pub record OAuthIdentity : Type 0 where
  pub id : ℕ
  pub user_id : ℕ
  pub provider : Provider
  pub provider_user_id : ℕ
  pub email : Option ℕ
  pub display_name : Option ℕ

abbrev pub identity_id : OAuthIdentity → ℕ
identity_id i = i.id

pub record OAuthProfile : Type 0 where
  pub subject : ℕ
  pub email : Option ℕ
  pub display_name : Option ℕ

-- Where the browser is sent.
pub data Redirect : Type 0 where
  authorize : Provider → Text → Option Text → Redirect
  settings_linked login_not_linked : Redirect
  login_code : Text → Text → Redirect
  settings_error login_error : Bool → Redirect

-- The digest and the access tokens; which providers are configured; the profile for a provider,
-- an authorization code and a nonce; and where a path leads on the frontend, if it stays there.
pub record OAuthConfig : Type 0 where
  pub auth : AuthConfig
  pub is_configured : Provider → Bool
  pub fetch_profile : Provider → Text → Option Text → Result OAuthProfile
  pub resolve : Text → Option Text

pub record OAuthTables : Type 1 where
  pub auth : AuthTables
  pub transactions : RowTable OAuthTransaction transaction_id
  pub identities : RowTable OAuthIdentity identity_id

pub record OAuthState (t : OAuthTables) : Type 0 where
  pub transactions : t.transactions.rows.Store
  pub identities : t.identities.rows.Store
  pub sessions : Sessions t.auth

-- What `begin` draws: the state, the nonce, and the identifier of the row.
pub record DrawnState : Type 0 where
  pub state : Text
  pub nonce : Text
  pub row_id : ℕ

abbrev pub is_verifier_char : ℕ → Bool
is_verifier_char c =
    (leb 65 c && leb c 90)
    || (leb 97 c && leb c 122)
    || (leb 48 c && leb c 57)
    || c == 95
    || c == 45

abbrev pub all_verifier_chars : Text → Bool
all_verifier_chars [] = true
all_verifier_chars (c ∷ cs) = let rest = all_verifier_chars cs in is_verifier_char c && rest

-- `isValidClientVerifier(value)`
abbrev pub is_valid_client_verifier : Text → Bool
is_valid_client_verifier v = leb 43 (length v) && leb (length v) 128 && all_verifier_chars v

-- '/savings'
abbrev pub savings_path : Text
savings_path = 47 ∷ 115 ∷ 97 ∷ 118 ∷ 105 ∷ 110 ∷ 103 ∷ 115 ∷ []

abbrev pub has_backslash : Text → Bool
has_backslash [] = false
has_backslash (c ∷ cs) = let rest = has_backslash cs in c == 92 || rest

-- A path that starts with one slash and holds no backslash.
abbrev pub is_local_path : Text → Bool
is_local_path [] = false
is_local_path (c ∷ []) = c == 47
is_local_path (c ∷ d ∷ cs) = c == 47 && not (d == 47) && not (has_backslash (d ∷ cs))

abbrev pub cut_or_savings : Option Text → Text
cut_or_savings none = savings_path
cut_or_savings (some path) = take 512 path

abbrev pub is_empty : Text → Bool
is_empty [] = true
is_empty (_ ∷ _) = false

abbrev pub return_or_savings : Option Text → Text
return_or_savings none = savings_path
return_or_savings (some path) = path

module _ (c : OAuthConfig) (t : OAuthTables) where
  -- `safeReturnTo(path)`
  unfoldable pub safe_return_to : Option Text → Text
  safe_return_to none = savings_path
  safe_return_to (some path) =
      if is_local_path path then cut_or_savings (c.resolve path) else savings_path

  abbrev pub matches_client_verifier : ℕ → Text → Bool
  matches_client_verifier expected verifier =
      is_valid_client_verifier verifier && expected == c.auth.sha256 verifier

  abbrev pub find_user : ℕ → OAuthState t → Option User
  find_user i s = t.auth.users.rows.find_one i s.sessions.users

  abbrev pub save_transaction : OAuthTransaction → OAuthState t → OAuthState t
  save_transaction r s = record s { transactions = t.transactions.rows.save r s.transactions }

  abbrev pub nonce_for : Provider → Text → Option Text
  nonce_for apple nonce = some nonce
  nonce_for _ nonce = none

  abbrev pub new_transaction :
      Provider → Intent → Option ℕ → Text → Option Text → ℕ → DrawnState → OAuthTransaction
  new_transaction provider intent user verifier return_to now d = record {
    id = d.row_id;
    state_hash = c.auth.sha256 d.state;
    provider = provider;
    intent = intent;
    user_id = user;
    nonce = nonce_for provider d.nonce;
    client_verifier_hash = c.auth.sha256 verifier;
    expires_at = now + 300_000;
    consumed_at = none;
    exchange_code_hash = none;
    exchanged_at = none;
    return_to = some (safe_return_to return_to);
  }

  -- The account that a link is for exists.
  abbrev pub is_linkable : Intent → Option ℕ → OAuthState t → Bool
  is_linkable link (some user) s = not (is_none (find_user user s))
  is_linkable _ _ s = true

  -- `begin(provider, intent, userId, clientVerifier, returnTo)`
  unfoldable pub begin :
      Provider
      → Intent
      → Option ℕ
      → Text
      → Option Text
      → ℕ
      → DrawnState
      → Action (OAuthState t) Redirect
  begin provider intent user verifier return_to now d = do
    raise_if (not (c.is_configured provider)) service_unavailable
    raise_if (not (is_valid_client_verifier verifier)) bad_request
    linkable ← gets (is_linkable intent user)
    raise_if (not linkable) unauthorized
    modify (save_transaction (new_transaction provider intent user verifier return_to now d))
    pure (authorize provider d.state (nonce_for provider d.nonce))

  -- `beginLogin(provider, clientVerifier, returnTo)`
  unfoldable pub begin_login :
      Provider → Text → Option Text → ℕ → DrawnState → Action (OAuthState t) Redirect
  unfolding begin
  begin_login provider verifier return_to now d = begin provider login none verifier return_to now d

  -- `beginLink(provider, userId, clientVerifier)`, which returns to '/settings'
  unfoldable pub begin_link : Provider → ℕ → Text → ℕ → DrawnState → Action (OAuthState t) Redirect
  unfolding begin
  begin_link provider user verifier now d =
      begin provider link (some user) verifier
        (some (47 ∷ 115 ∷ 101 ∷ 116 ∷ 116 ∷ 105 ∷ 110 ∷ 103 ∷ 115 ∷ [])) now d

  abbrev pub is_open : ℕ → Provider → OAuthTransaction → Bool
  is_open hash provider r =
      r.state_hash == hash && same_provider r.provider provider && is_none r.consumed_at

  abbrev pub can_consume : ℕ → ℕ → OAuthTransaction → Bool
  can_consume id now r = r.id == id && is_none r.consumed_at && ltb now r.expires_at

  abbrev pub consumed : ℕ → OAuthTransaction → OAuthTransaction
  consumed now r = record r { consumed_at = some now }

  -- Whether an update by identifier affects a row.
  abbrev pub affects : (OAuthTransaction → Bool) → Option OAuthTransaction → Bool
  affects p none = false
  affects p (some r) = p r

  abbrev pub update_transaction :
      ℕ
      → (OAuthTransaction → Bool)
      → (OAuthTransaction → OAuthTransaction)
      → Action (OAuthState t) Bool
  update_transaction id p f s = (
    ok (affects p (t.transactions.rows.find_one id s.transactions)),
    record s { transactions = t.transactions.update_where p f s.transactions },
  )

  abbrev pub consume_found : Option OAuthTransaction → ℕ → Action (OAuthState t) OAuthTransaction
  consume_found none now = raise unauthorized
  consume_found (some r) now = if leb r.expires_at now then raise unauthorized else (do
    affected ← update_transaction r.id (can_consume r.id now) (consumed now)
    raise_if (not affected) unauthorized
    pure r)

  -- `consumeState(provider, state)`, which returns the row as it was read
  unfoldable pub consume_state : Provider → Text → ℕ → Action (OAuthState t) OAuthTransaction
  consume_state provider state now s =
      if is_empty state
      then (err unauthorized, s)
      else consume_found
          (t.transactions.find_where (is_open (c.auth.sha256 state) provider) s.transactions) now s

  abbrev pub has_subject : Provider → ℕ → OAuthIdentity → Bool
  has_subject provider subject i =
      same_provider i.provider provider && i.provider_user_id == subject

  abbrev pub is_of_user : Provider → ℕ → OAuthIdentity → Bool
  is_of_user provider user i = i.user_id == user && same_provider i.provider provider

  abbrev pub is_of_other : ℕ → Option OAuthIdentity → Bool
  is_of_other user none = false
  is_of_other user (some i) = not (i.user_id == user)

  abbrev pub has_other_subject : ℕ → Option OAuthIdentity → Bool
  has_other_subject subject none = false
  has_other_subject subject (some i) = not (i.provider_user_id == subject)

  abbrev pub identity_or_new : Option OAuthIdentity → ℕ → ℕ → Provider → ℕ → OAuthIdentity
  identity_or_new (some i) fresh user provider subject = i
  identity_or_new none fresh user provider subject = record {
    id = fresh;
    user_id = user;
    provider = provider;
    provider_user_id = subject;
    email = none;
    display_name = none;
  }

  abbrev pub save_identity : OAuthIdentity → OAuthState t → OAuthState t
  save_identity i s = record s { identities = t.identities.rows.save i s.identities }

  -- `linkIdentity(userId, provider, profile)`; `fresh` is the identifier of a new row.
  unfoldable pub link_identity : ℕ → Provider → OAuthProfile → ℕ → Action (OAuthState t) (Unit {0})
  link_identity user provider profile fresh = do
    by_subject ←
        gets (λ s. t.identities.find_where (has_subject provider profile.subject) s.identities)
    raise_if (is_of_other user by_subject) bad_request
    for_provider ← gets (λ s. t.identities.find_where (is_of_user provider user) s.identities)
    raise_if (has_other_subject profile.subject for_provider) bad_request
    let i = identity_or_new by_subject fresh user provider profile.subject
    modify (save_identity (record i { email = profile.email; display_name = profile.display_name }))
