-- ===== src/Auth/OAuth/Replay.antt =====
-- backend/src/auth/oauth.service.ts: the callback of a sign-in, and its state afterwards.
use stow.Prelude.{
  ℕ, ◌+◌, ◌<◌, ◌≡◌, refl, sym, ap, ◌∙◌, inl, inr, Bool, true, false, none, some, arith, ltb, leb,
  ◌==◌, ==_iff, ==_refl, ◌&&◌, some-eq,
}
use stow.Prelude.Table.{find_one-save_self}
use stow.Prelude.Rows.{changed_from, saved_from, find_where_only}
use stow.Prelude.Result.{ok}
use stow.Auth.Entries.{Text}
use stow.Auth.Sessions.{User}
use stow.Auth.OAuth.{
  Provider, login, is_none, same_provider, OAuthTransaction, OAuthIdentity, OAuthProfile,
  login_code, OAuthConfig, OAuthTables, OAuthState, is_empty, return_or_savings, find_user,
  save_transaction, is_open, can_consume, consumed, affects, consume_state, has_subject,
}
use stow.Auth.OAuth.Callback.{
  with_code, after_consume, complete_callback, has_state, provider_for_state,
}
use stow.Auth.OAuth.Spent.{IsStored}

module _ (c : OAuthConfig) (t : OAuthTables) where
  -- The transaction is the only stored one with the digest of its state (the column is unique).
  abbrev pub IsAlone : OAuthTransaction → OAuthState t → Type 0
  IsAlone r s =
      (q : OAuthTransaction) → IsStored c t q s → q.state_hash ≡ r.state_hash → q.id ≡ r.id

  abbrev consumed_state : OAuthTransaction → ℕ → OAuthState t → OAuthState t
  consumed_state r now s = record s {
    transactions =
        t.transactions.update_where (can_consume c t r.id now) (consumed c t now) s.transactions;
  }

  -- A sign-in whose identity is linked to a user.
  abbrev pub SignsIn : Provider → Text → OAuthTransaction → User → OAuthState t → Type 0
  SignsIn provider code r u s =
      (is_empty code ≡ false)
      × ((profile : OAuthProfile) × (i : OAuthIdentity) × (c.fetch_profile provider code r.nonce
            ≡ ok profile)
          × (t.identities.find_where (has_subject c t provider profile.subject) s.identities
              ≡ some i)
          × (find_user c t i.user_id s ≡ some u))

  only_open :
      (h : ℕ) (p : OAuthTransaction → Bool) (r : OAuthTransaction) (s : OAuthState t)
      → ((q : OAuthTransaction) → p q ≡ true → q.state_hash ≡ h)
      → r.state_hash ≡ h
      → IsStored c t r s
      → IsAlone r s
      → p r ≡ true
      → t.transactions.find_where p s.transactions ≡ some r
  only_open h p r s has is stored alone open_now =
      find_where_only t.transactions p r s.transactions stored open_now λ q passes there.
        (let same = alone q there (has q passes ∙ sym is) in
          some-eq
            (sym there ∙ ap (λ i. t.transactions.rows.find_one i s.transactions) same ∙ stored))

  and_left : (a b : Bool) → (a && b) ≡ true → a ≡ true
  and_left true b e = refl
  and_left false b e = e

  is_open-hash :
      (h : ℕ) (provider : Provider) (q : OAuthTransaction)
      → is_open c t h provider q ≡ true
      → q.state_hash ≡ h
  is_open-hash h provider q e = (==_iff q.state_hash h).0 (
      and_left (q.state_hash == h) (same_provider q.provider provider) (
        and_left (q.state_hash == h && same_provider q.provider provider) (is_none q.consumed_at)
          e))

  has_state-hash : (h : ℕ) (q : OAuthTransaction) → has_state c t h q ≡ true → q.state_hash ≡ h
  has_state-hash h q e =
      (==_iff q.state_hash h).0 (and_left (q.state_hash == h) (is_none q.consumed_at) e)

  -- One callback of a sign-in, to its end.
  callback_login :
      (provider : Provider) (state code one_time : Text) (fresh now : ℕ) (r : OAuthTransaction)
      (u : User) (s : OAuthState t)
      → is_empty state ≡ false
      → r.state_hash ≡ c.auth.sha256 state
      → r.provider ≡ provider
      → r.consumed_at ≡ none
      → r.intent ≡ login
      → now < r.expires_at
      → IsStored c t r s
      → IsAlone r s
      → SignsIn provider code r u s
      → complete_callback c t provider state code one_time fresh now s ≡ (
        ok (login_code one_time (return_or_savings r.return_to)),
        save_transaction c t (with_code c t u.id one_time now r) (consumed_state r now s),
      )
  unfolding complete_callback consume_state after_consume
  callback_login provider state code one_time fresh now r u s given hash is_from unconsumed intent
        young stored alone (some_code, (profile, i, fetched, linked, user)) =
      let h = c.auth.sha256 state in
      let opens : is_open c t h provider r ≡ true =
        rw (hash, is_from, unconsumed, ==_refl h) (same_provider_refl provider) in
      let found =
        only_open h (is_open c t h provider) r s (is_open-hash h provider) hash stored alone
          opens in
      let not_over : leb r.expires_at now ≡ false = ground arith in
      let before : ltb now r.expires_at ≡ true = ground arith in
      let hit : affects c t (can_consume c t r.id now)
            (t.transactions.rows.find_one r.id s.transactions)
          ≡ true =
        rw stored (rw (==_refl r.id, unconsumed, before) refl) in
      rw (given, found, not_over, hit) (rw (some_code, fetched) (rw (intent, linked, user) refl))
    where
      same_provider_refl : (x : Provider) → (same_provider x x && true) ≡ true
      same_provider_refl Provider.google = refl
      same_provider_refl Provider.apple = refl
      same_provider_refl Provider.github = refl

  -- After the callback the transaction is stored with the code, and is alone as before.
  after-IsAlone :
      (user : ℕ) (one_time : Text) (now : ℕ) (r : OAuthTransaction) (s : OAuthState t)
      → IsAlone r s
      → let r' = with_code c t user one_time now r in
        IsAlone r' (save_transaction c t r' (consumed_state r now s))
  after-IsAlone user one_time now r s alone q stored same =
      let r' = with_code c t user one_time now r in
      let p = can_consume c t r.id now in
      elim (saved_from t.transactions.rows r' q (consumed_state r now s).transactions stored) [
        | inl is ↦ ap (λ (x : OAuthTransaction). x.id) is
        | inr (_, before) ↦
            let (x, there, how) =
              changed_from p (consumed c t now) (t.transactions.rows.find_one q.id s.transactions) q
                (sym (
                    t.transactions.find_one-update_where p (consumed c t now) q.id s.transactions
                      (λ y. refl))
                  ∙ before) in
            let id : q.id ≡ x.id = elim how [
              | inl (_, is) ↦ ap (λ (y : OAuthTransaction). y.id) is
              | inr (_, is) ↦ ap (λ (y : OAuthTransaction). y.id) is
            ] in
            let hash : q.state_hash ≡ x.state_hash = elim how [
              | inl (_, is) ↦ ap (λ (y : OAuthTransaction). y.state_hash) is
              | inr (_, is) ↦ ap (λ (y : OAuthTransaction). y.state_hash) is
            ] in
            let old : IsStored c t x s =
              ap (λ i. t.transactions.rows.find_one i s.transactions) (sym id) ∙ there in
            id ∙ alone x old (sym hash ∙ same)
      ]

  -- A transaction of a sign-in is stored, alone with the digest of its state, not consumed and not
  -- expired. The callback with its state succeeds, for an identity that is linked to a user. Within
  -- the minute that follows, the state is open again: its provider is found, and another callback
  -- with the same state, for an identity that is linked to a user, succeeds with a code of its own.
  pub consumed_state_reopens :
      (provider : Provider) (state code code' one_time one_time' : Text) (fresh now later : ℕ)
      (r : OAuthTransaction) (u u' : User) (s : OAuthState t)
      → is_empty state ≡ false
      → r.state_hash ≡ c.auth.sha256 state
      → r.provider ≡ provider
      → r.consumed_at ≡ none
      → r.intent ≡ login
      → now < r.expires_at
      → IsStored c t r s
      → IsAlone r s
      → SignsIn provider code r u s
      → SignsIn provider code' r u' s
      → later < now + 60_000
      → let (first, s') = complete_callback c t provider state code one_time fresh now s in
        (first ≡ ok (login_code one_time (return_or_savings r.return_to)))
        × (provider_for_state c t state later s' ≡ ok provider)
        × ((complete_callback c t provider state code' one_time' fresh later s').0
            ≡ ok (login_code one_time' (return_or_savings r.return_to)))
  unfolding provider_for_state
  consumed_state_reopens provider state code code' one_time one_time' fresh now later r u u' s given
        hash is_from unconsumed intent young stored alone signs signs' soon =
      let r' = with_code c t u.id one_time now r in
      let s' = save_transaction c t r' (consumed_state r now s) in
      let first =
        callback_login provider state code one_time fresh now r u s given hash is_from unconsumed
          intent young stored alone signs in
      let there : IsStored c t r' s' =
        find_one-save_self t.transactions.rows r'.id r' (consumed_state r now s).transactions
          refl in
      let alone' = after-IsAlone u.id one_time now r s alone in
      let second =
        callback_login provider state code' one_time' fresh later r' u' s' given hash is_from
          unconsumed intent soon there alone' signs' in
      let h = c.auth.sha256 state in
      let opens : has_state c t h r' ≡ true = rw (hash, unconsumed, ==_refl h) refl in
      let found = only_open h (has_state c t h) r' s' (has_state-hash h) hash there alone' opens in
      let current : leb (now + 60_000) later ≡ false = ground arith in
      let open_again : provider_for_state c t state later s' ≡ ok provider =
        rw (given, found, current) (ap ok is_from) in
      (ap (λ x. x.0) first, (rw first open_again), (rw first (ap (λ x. x.0) second)))
