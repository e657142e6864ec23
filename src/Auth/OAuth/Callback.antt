-- ===== src/Auth/OAuth/Callback.antt =====
-- backend/src/auth/oauth.service.ts, what follows the provider's callback: the end of a link, the
-- one-time code of a sign-in, and its exchange for a session.
use stow.Prelude.{
  ℕ, ◌+◌, Bool, true, false, not, Option, none, some, length, ltb, leb, ◌==◌, ◌&&◌, ◌||◌,
  if◌then◌else◌,
}
use stow.Prelude.Result.{
  Result, ok, err, unauthorized, Action, raise, raise_if, or_raise, lift, pure, gets, modify,
  then_do, ◌>>=◌, ◌>>◌,
}
use stow.Auth.Entries.{Text}
use stow.Auth.Sessions.{User, SessionTokens, Drawn, Sessions, create_session}
use stow.Auth.OAuth.{
  Provider, Intent, login, link, is_none, OAuthTransaction, OAuthIdentity, OAuthProfile, Redirect,
  settings_linked, login_not_linked, login_code, settings_error, login_error, OAuthConfig,
  OAuthTables, OAuthState, is_empty, return_or_savings, matches_client_verifier, find_user,
  save_transaction, update_transaction, consume_state, has_subject, link_identity,
}

module _ (c : OAuthConfig) (t : OAuthTables) where
  -- The branch of a link.
  abbrev pub finish_link :
      OAuthTransaction → Provider → OAuthProfile → ℕ → Action (OAuthState t) Redirect
  finish_link r provider profile fresh = do
    user ← or_raise r.user_id unauthorized
    link_identity c t user provider profile fresh
    pure settings_linked

  -- The transaction with the hash of a one-time code for a user.
  abbrev pub with_code : ℕ → Text → ℕ → OAuthTransaction → OAuthTransaction
  with_code user code now r = record r {
    user_id = some user;
    exchange_code_hash = some (c.auth.sha256 code);
    expires_at = now + 60_000;
  }

  abbrev pub give_code : OAuthTransaction → Text → ℕ → User → Action (OAuthState t) Redirect
  give_code r code now u = do
    modify (save_transaction c t (with_code u.id code now r))
    pure (login_code code (return_or_savings r.return_to))

  abbrev pub login_identity :
      Option OAuthIdentity → OAuthTransaction → Text → ℕ → Action (OAuthState t) Redirect
  login_identity none r code now = pure login_not_linked
  login_identity (some i) r code now = do
    found ← gets (find_user c t i.user_id)
    u ← or_raise found unauthorized
    give_code r code now u

  -- The branch of a sign-in.
  abbrev pub finish_login :
      OAuthTransaction → Provider → OAuthProfile → Text → ℕ → Action (OAuthState t) Redirect
  finish_login r provider profile code now = do
    found ← gets (λ (s : OAuthState t).
        t.identities.find_where (has_subject c t provider profile.subject) s.identities)
    login_identity found r code now

  abbrev pub finish_callback :
      Intent
      → OAuthTransaction
      → Provider
      → OAuthProfile
      → Text
      → ℕ
      → ℕ
      → Action (OAuthState t) Redirect
  finish_callback link r provider profile exchange_code fresh now =
      finish_link r provider profile fresh
  finish_callback login r provider profile exchange_code fresh now =
      finish_login r provider profile exchange_code now

  -- What follows the consumption of the state.
  unfoldable pub after_consume :
      Provider → Text → Text → ℕ → ℕ → OAuthTransaction → Action (OAuthState t) Redirect
  unfolding link_identity
  after_consume provider code exchange_code fresh now r = do
    raise_if (is_empty code) unauthorized
    profile ← lift (c.fetch_profile provider code r.nonce)
    finish_callback r.intent r provider profile exchange_code fresh now

  -- `completeCallback(provider, state, code)`; the one-time code is drawn at random.
  unfoldable pub complete_callback :
      Provider → Text → Text → Text → ℕ → ℕ → Action (OAuthState t) Redirect
  unfolding consume_state after_consume
  complete_callback provider state code exchange_code fresh now s =
      then_do (after_consume provider code exchange_code fresh now)
        (consume_state c t provider state now s)

  abbrev pub error_page : Bool → OAuthTransaction → Redirect
  error_page cancelled r = elim (r.intent) [
    | link ↦ settings_error cancelled
    | login ↦ login_error cancelled
  ]

  -- `completeProviderError(provider, state, error)`; `cancelled` is `error === 'access_denied'`.
  unfoldable pub complete_provider_error :
      Provider → Text → Bool → ℕ → Action (OAuthState t) Redirect
  unfolding consume_state
  complete_provider_error provider state cancelled now = do
    r ← consume_state c t provider state now
    pure (error_page cancelled r)

  abbrev pub has_state : ℕ → OAuthTransaction → Bool
  has_state hash r = r.state_hash == hash && is_none r.consumed_at

  abbrev pub provider_of_found : Option OAuthTransaction → ℕ → Result Provider
  provider_of_found none now = err unauthorized
  provider_of_found (some r) now = if leb r.expires_at now then err unauthorized else ok r.provider

  -- `providerForState(state)`
  unfoldable pub provider_for_state : Text → ℕ → OAuthState t → Result Provider
  provider_for_state state now s =
      if is_empty state
      then err unauthorized
      else provider_of_found
          (t.transactions.find_where (has_state (c.auth.sha256 state)) s.transactions) now

  abbrev pub has_code : ℕ → OAuthTransaction → Bool
  has_code hash r = elim (r.exchange_code_hash) [
    | none ↦ false
    | some h ↦ h == hash && is_none r.exchanged_at
  ]

  abbrev pub can_exchange : ℕ → ℕ → OAuthTransaction → Bool
  can_exchange id now r = r.id == id && is_none r.exchanged_at && ltb now r.expires_at

  abbrev pub exchanged : ℕ → OAuthTransaction → OAuthTransaction
  exchanged now r = record r { exchanged_at = some now }

  -- A call on the sessions as one on the whole state.
  abbrev pub on_sessions : {A : Type 0} → Action (Sessions t.auth) A → Action (OAuthState t) A
  on_sessions m s = let (r, sessions) = m s.sessions in (r, record s { sessions = sessions })

  abbrev pub session_for : ℕ → ℕ → Drawn → Action (OAuthState t) (SessionTokens × User)
  session_for user now d = do
    found ← gets (find_user c t user)
    u ← or_raise found unauthorized
    tokens ← on_sessions (create_session c.auth t.auth u now d)
    pure (tokens, u)

  abbrev pub exchange_for_user :
      Option ℕ → OAuthTransaction → Text → ℕ → Drawn → Action (OAuthState t) (SessionTokens × User)
  exchange_for_user none r verifier now d = raise unauthorized
  exchange_for_user (some user) r verifier now d =
      if not (matches_client_verifier c t r.client_verifier_hash verifier)
      then raise unauthorized
      else (do
        affected ← update_transaction c t r.id (can_exchange r.id now) (exchanged now)
        raise_if (not affected) unauthorized
        session_for user now d)

  abbrev pub exchange_found :
      Option OAuthTransaction → Text → ℕ → Drawn → Action (OAuthState t) (SessionTokens × User)
  exchange_found none verifier now d = raise unauthorized
  exchange_found (some r) verifier now d =
      if leb r.expires_at now
      then raise unauthorized
      else exchange_for_user r.user_id r verifier now d

  -- `exchangeCode(code, codeVerifier)`
  unfoldable pub exchange_code :
      Text → Text → ℕ → Drawn → Action (OAuthState t) (SessionTokens × User)
  unfolding create_session
  exchange_code code verifier now d s =
      if is_empty code || ltb 128 (length code)
      then (err unauthorized, s)
      else exchange_found (t.transactions.find_where (has_code (c.auth.sha256 code)) s.transactions)
          verifier now d s

  -- `cleanupExpiredTransactions()`
  unfoldable pub cleanup_expired_transactions : ℕ → OAuthState t → OAuthState t
  cleanup_expired_transactions now s = record s {
    transactions = t.transactions.delete_where (λ r. ltb r.expires_at now) s.transactions;
  }

  abbrev is_link : Option OAuthTransaction → Bool
  is_link none = false
  is_link (some r) = elim (r.intent) [ link ↦ true | login ↦ false ]

  -- `callbackFailureForState(state)`
  unfoldable pub callback_failure_for_state : Text → OAuthState t → Redirect
  callback_failure_for_state state s =
      if is_empty state
      then login_error false
      else if is_link
          (t.transactions.find_where (λ r. r.state_hash == c.auth.sha256 state) s.transactions)
      then settings_error false
      else login_error false
