-- ===== src/Auth/OAuth/Spent.antt =====
-- backend/src/auth/oauth.service.ts: sequences of calls, and a one-time code that was exchanged.
use stow.Prelude.{
  ℕ, ◌≡◌, ◌≢◌, refl, sym, ap, ◌∙◌, inl, inr, Bool, true, false, Option, none, some, List, [], ◌∷◌,
  All, length, ltb, leb, ◌||◌, Bool-cases, Option-cases, some-eq,
}
use stow.Prelude.Rows.{changed_from, kept_from, saved_from}
use stow.Prelude.Result.{Result, ok, err, then_do, then_do-pure, Result-cases}
use stow.Auth.Entries.{Text}
use stow.Auth.Sessions.{Drawn, create_session}
use stow.Auth.OAuth.{
  Provider, Intent, login, link, is_none, OAuthTransaction, OAuthIdentity, OAuthProfile,
  OAuthConfig, OAuthTables, OAuthState, DrawnState, is_empty, is_valid_client_verifier,
  matches_client_verifier, find_user, save_transaction, new_transaction, is_linkable, begin,
  affects, is_open, can_consume, consumed, consume_found, consume_state, is_of_other, has_subject,
  is_of_user, has_other_subject, link_identity,
}
use stow.Auth.OAuth.Callback.{
  finish_link, with_code, login_identity, finish_callback, after_consume, complete_callback,
  complete_provider_error, has_code, can_exchange, exchanged, session_for, exchange_for_user,
  exchange_found, exchange_code, cleanup_expired_transactions,
}

pub data OAuthCall : Type 0 where
  begins : Provider → Intent → Option ℕ → Text → Option Text → ℕ → DrawnState → OAuthCall
  calls_back : Provider → Text → Text → Text → ℕ → ℕ → OAuthCall
  fails : Provider → Text → Bool → ℕ → OAuthCall
  exchanges : Text → Text → ℕ → Drawn → OAuthCall
  cleans : ℕ → OAuthCall

module _ (c : OAuthConfig) (t : OAuthTables) where
  unfoldable pub step : OAuthCall → OAuthState t → OAuthState t
  step (begins provider intent user verifier return_to now d) s =
      (begin c t provider intent user verifier return_to now d s).1
  step (calls_back provider state code one_time fresh now) s =
      (complete_callback c t provider state code one_time fresh now s).1
  step (fails provider state cancelled now) s =
      (complete_provider_error c t provider state cancelled now s).1
  step (exchanges code verifier now d) s = (exchange_code c t code verifier now d s).1
  step (cleans now) s = cleanup_expired_transactions c t now s

  abbrev pub steps : List OAuthCall → OAuthState t → OAuthState t
  steps [] s = s
  steps (q ∷ qs) s = steps qs (step q s)

  -- No callback draws a one-time code with this digest.
  abbrev pub Avoids : ℕ → OAuthCall → Type 0
  Avoids h (calls_back provider state code one_time fresh now) = c.auth.sha256 one_time ≢ h
  Avoids h (begins provider intent user verifier return_to now d) = Unit {0}
  Avoids h (fails provider state cancelled now) = Unit {0}
  Avoids h (exchanges code verifier now d) = Unit {0}
  Avoids h (cleans now) = Unit {0}

  abbrev pub IsStored : OAuthTransaction → OAuthState t → Type 0
  IsStored r s = t.transactions.rows.find_one r.id s.transactions ≡ some r

  -- Every stored transaction with a code of this digest was exchanged.
  abbrev pub IsSpent : ℕ → OAuthState t → Type 0
  IsSpent h s =
      (r : OAuthTransaction)
      → IsStored r s
      → r.exchange_code_hash ≡ some h
      → is_none r.exchanged_at ≡ false

  module _ (h : ℕ) where
    save-IsSpent :
        (r : OAuthTransaction) (s : OAuthState t)
        → r.exchange_code_hash ≢ some h
        → IsSpent h s
        → IsSpent h (save_transaction c t r s)
    save-IsSpent r s other spent q stored has =
        elim (saved_from t.transactions.rows r q s.transactions stored) [
          | inl is ↦
              absurd (other (ap (λ (x : OAuthTransaction). x.exchange_code_hash) (sym is) ∙ has))
          | inr (_, before) ↦ spent q before has
        ]

    update-IsSpent :
        (p : OAuthTransaction → Bool) (f : OAuthTransaction → OAuthTransaction) (s : OAuthState t)
        → ((r : OAuthTransaction) → (f r).id ≡ r.id)
        → ((r : OAuthTransaction) → (f r).exchange_code_hash ≡ r.exchange_code_hash)
        → ((r : OAuthTransaction)
            → is_none r.exchanged_at ≡ false
            → is_none (f r).exchanged_at ≡ false)
        → IsSpent h s
        → IsSpent h (record s { transactions = t.transactions.update_where p f s.transactions })
    update-IsSpent p f s ids codes ages spent q stored has =
        let (r, there, how) =
          changed_from p f (t.transactions.rows.find_one q.id s.transactions) q
            (sym (t.transactions.find_one-update_where p f q.id s.transactions ids) ∙ stored) in
        elim how [
          | inl (_, is) ↦
              let same : q.id ≡ r.id = ap (λ (x : OAuthTransaction). x.id) is ∙ ids r in
              let before : IsStored r s =
                ap (λ i. t.transactions.rows.find_one i s.transactions) (sym same) ∙ there in
              let code : r.exchange_code_hash ≡ some h =
                sym (codes r)
                ∙ ap (λ (x : OAuthTransaction). x.exchange_code_hash) (sym is)
                ∙ has in
              ap (λ (x : OAuthTransaction). is_none x.exchanged_at) is
              ∙ ages r (spent r before code)
          | inr (_, is) ↦ spent q (there ∙ ap some (sym is)) has
        ]

    delete-IsSpent :
        (p : OAuthTransaction → Bool) (s : OAuthState t)
        → IsSpent h s
        → IsSpent h (record s { transactions = t.transactions.delete_where p s.transactions })
    delete-IsSpent p s spent q stored has =
        let (before, _) =
          kept_from p (t.transactions.rows.find_one q.id s.transactions) q
            (sym (t.transactions.find_one-delete_where p q.id s.transactions) ∙ stored) in
        spent q before has

    begin-IsSpent :
        (provider : Provider) (intent : Intent) (user : Option ℕ) (verifier : Text)
        (return_to : Option Text) (now : ℕ) (d : DrawnState) (s : OAuthState t)
        → IsSpent h s
        → IsSpent h (begin c t provider intent user verifier return_to now d s).1
    unfolding begin
    begin-IsSpent provider intent user verifier return_to now d s spent =
        elim (Bool-cases (c.is_configured provider)) [
          | inr missing ↦ rw missing spent
          | inl configured ↦ elim (Bool-cases (is_valid_client_verifier verifier)) [
            | inr invalid ↦ rw (configured, invalid) spent
            | inl valid ↦ elim (Bool-cases (is_linkable c t intent user s)) [
              | inr gone ↦ rw (configured, valid, gone) spent
              | inl linkable ↦
                  rw (configured, valid, linkable)
                    (save-IsSpent
                      (new_transaction c t provider intent user verifier return_to now d) s
                      (λ e. cc) spent)
            ]
          ]
        ]

    consume_found-IsSpent :
        (o : Option OAuthTransaction) (now : ℕ) (s : OAuthState t)
        → IsSpent h s
        → IsSpent h (consume_found c t o now s).1
    consume_found-IsSpent none now s spent = spent
    consume_found-IsSpent (some r) now s spent = elim (Bool-cases (leb r.expires_at now)) [
      | inl over ↦ rw over spent
      | inr young ↦
          let marked =
            update-IsSpent (can_consume c t r.id now) (consumed c t now) s (λ x. refl) (λ x. refl)
              (λ x e. e) spent in
          elim (Bool-cases (
            affects c t (can_consume c t r.id now)
              (t.transactions.rows.find_one r.id s.transactions))) [
                | inl yes_one ↦ rw (young, yes_one) marked
                | inr not_one ↦ rw (young, not_one) marked
              ]
    ]

    consume_state-IsSpent :
        (provider : Provider) (state : Text) (now : ℕ) (s : OAuthState t)
        → IsSpent h s
        → IsSpent h (consume_state c t provider state now s).1
    unfolding consume_state
    consume_state-IsSpent provider state now s spent = elim (Bool-cases (is_empty state)) [
      | inl empty ↦ rw empty spent
      | inr given ↦ rw given (
          consume_found-IsSpent
            (t.transactions.find_where (is_open c t (c.auth.sha256 state) provider) s.transactions)
            now s spent)
    ]

    link_identity-transactions :
        (user : ℕ) (provider : Provider) (profile : OAuthProfile) (fresh : ℕ) (s : OAuthState t)
        → (link_identity c t user provider profile fresh s).1.transactions ≡ s.transactions
    unfolding link_identity
    link_identity-transactions user provider profile fresh s =
        elim (Bool-cases (
          is_of_other c t user
            (t.identities.find_where (has_subject c t provider profile.subject) s.identities))) [
              | inl other ↦ rw other refl
              | inr own ↦
                  elim (Bool-cases (
                    has_other_subject c t profile.subject
                      (t.identities.find_where (is_of_user c t provider user) s.identities))) [
                        | inl second ↦ rw (own, second) refl
                        | inr same ↦ rw (own, same) refl
                      ]
            ]

    same-IsSpent :
        (s s' : OAuthState t) → s'.transactions ≡ s.transactions → IsSpent h s → IsSpent h s'
    same-IsSpent s s' same spent q stored has =
        spent q (ap (λ x. t.transactions.rows.find_one q.id x) (sym same) ∙ stored) has

    finish_link-transactions :
        (user : Option ℕ) (provider : Provider) (profile : OAuthProfile) (fresh : ℕ)
        (r : OAuthTransaction) (s : OAuthState t)
        → r.user_id ≡ user
        → (finish_link c t r provider profile fresh s).1.transactions ≡ s.transactions
    finish_link-transactions none provider profile fresh r s is = rw is refl
    finish_link-transactions (some user) provider profile fresh r s is =
        rw is (elim (Result-cases (link_identity c t user provider profile fresh s).0) [
          | inl (e, failed) ↦ rw failed (link_identity-transactions user provider profile fresh s)
          | inr (done, linked) ↦
              rw linked (link_identity-transactions user provider profile fresh s)
        ])

    login_identity-IsSpent :
        (o : Option OAuthIdentity) (r : OAuthTransaction) (code : Text) (now : ℕ) (s : OAuthState t)
        → c.auth.sha256 code ≢ h
        → IsSpent h s
        → IsSpent h (login_identity c t o r code now s).1
    login_identity-IsSpent none r code now s other spent = spent
    login_identity-IsSpent (some i) r code now s other spent =
        elim (Option-cases (find_user c t i.user_id s)) [
          | inl missing ↦ rw missing spent
          | inr (u, found) ↦
              rw found
                (save-IsSpent (with_code c t u.id code now r) s (λ e. other (some-eq e)) spent)
        ]

    finish_callback-IsSpent :
        (intent : Intent) (r : OAuthTransaction) (provider : Provider) (profile : OAuthProfile)
        (one_time : Text) (fresh now : ℕ) (s : OAuthState t)
        → c.auth.sha256 one_time ≢ h
        → IsSpent h s
        → IsSpent h (finish_callback c t intent r provider profile one_time fresh now s).1
    finish_callback-IsSpent link r provider profile one_time fresh now s other spent =
        same-IsSpent s (finish_link c t r provider profile fresh s).1
          (finish_link-transactions r.user_id provider profile fresh r s refl) spent
    finish_callback-IsSpent login r provider profile one_time fresh now s other spent =
        login_identity-IsSpent
          (t.identities.find_where (has_subject c t provider profile.subject) s.identities) r
          one_time now s other spent

    after_consume-IsSpent :
        (provider : Provider) (code one_time : Text) (fresh now : ℕ)
        (p : Result OAuthTransaction × OAuthState t)
        → c.auth.sha256 one_time ≢ h
        → IsSpent h p.1
        → IsSpent h (then_do (after_consume c t provider code one_time fresh now) p).1
    unfolding after_consume
    after_consume-IsSpent provider code one_time fresh now (err e, s) other spent = spent
    after_consume-IsSpent provider code one_time fresh now (ok r, s) other spent =
        elim (Bool-cases (is_empty code)) [
          | inl empty ↦ rw empty spent
          | inr given ↦ elim (Result-cases (c.fetch_profile provider code r.nonce)) [
            | inl (e, failed) ↦ rw (given, failed) spent
            | inr (profile, fetched) ↦
                rw (given, fetched)
                  (finish_callback-IsSpent r.intent r provider profile one_time fresh now s other
                    spent)
          ]
        ]

    session_for-transactions :
        (user now : ℕ) (d : Drawn) (s : OAuthState t)
        → (session_for c t user now d s).1.transactions ≡ s.transactions
    unfolding create_session
    session_for-transactions user now d s = elim (Option-cases (find_user c t user s)) [
      | inl missing ↦ rw missing refl
      | inr (u, found) ↦ rw found refl
    ]

    -- The transactions after an exchange that reached the update.
    pub exchange_for_user-transactions :
        (user : ℕ) (r : OAuthTransaction) (verifier : Text) (now : ℕ) (d : Drawn) (s : OAuthState t)
        → matches_client_verifier c t r.client_verifier_hash verifier ≡ true
        → (exchange_for_user c t (some user) r verifier now d s).1.transactions
          ≡ t.transactions.update_where
              (can_exchange c t r.id now)
              (exchanged c t now)
              s.transactions
    exchange_for_user-transactions user r verifier now d s right =
        elim (Bool-cases (
          affects c t (can_exchange c t r.id now)
            (t.transactions.rows.find_one r.id s.transactions))) [
              | inl yes_one ↦ rw (right, yes_one) (session_for-transactions user now d _)
              | inr not_one ↦ rw (right, not_one) refl
            ]

    pub exchange_found-IsSpent :
        (o : Option OAuthTransaction) (verifier : Text) (now : ℕ) (d : Drawn) (s : OAuthState t)
        → IsSpent h s
        → IsSpent h (exchange_found c t o verifier now d s).1
    exchange_found-IsSpent none verifier now d s spent = spent
    exchange_found-IsSpent (some r) verifier now d s spent =
        elim (Bool-cases (leb r.expires_at now)) [
          | inl over ↦ rw over spent
          | inr young ↦ rw young (for_user r.user_id)
        ]
      where
        for_user : (user : Option ℕ) → IsSpent h (exchange_for_user c t user r verifier now d s).1
        for_user none = spent
        for_user (some user) =
            elim (Bool-cases (matches_client_verifier c t r.client_verifier_hash verifier)) [
              | inr wrong ↦ rw wrong spent
              | inl right ↦
                  same-IsSpent
                    (record s {
                      transactions =
                          t.transactions.update_where (can_exchange c t r.id now)
                            (exchanged c t now) s.transactions;
                    })
                    (exchange_for_user c t (some user) r verifier now d s).1
                    (exchange_for_user-transactions user r verifier now d s right)
                    (update-IsSpent (can_exchange c t r.id now) (exchanged c t now) s (λ x. refl)
                      (λ x. refl) (λ x e. refl) spent)
            ]

    exchange_code-IsSpent :
        (code verifier : Text) (now : ℕ) (d : Drawn) (s : OAuthState t)
        → IsSpent h s
        → IsSpent h (exchange_code c t code verifier now d s).1
    unfolding exchange_code
    exchange_code-IsSpent code verifier now d s spent =
        elim (Bool-cases (is_empty code || ltb 128 (length code))) [
          | inl malformed ↦ rw malformed spent
          | inr given ↦ rw given (
              exchange_found-IsSpent
                (t.transactions.find_where (has_code c t (c.auth.sha256 code)) s.transactions)
                verifier now d s spent)
        ]

    step-IsSpent :
        (q : OAuthCall) (s : OAuthState t) → Avoids h q → IsSpent h s → IsSpent h (step q s)
    unfolding step complete_callback complete_provider_error cleanup_expired_transactions
    step-IsSpent (begins provider intent user verifier return_to now d) s _ spent =
        begin-IsSpent provider intent user verifier return_to now d s spent
    step-IsSpent (calls_back provider state code one_time fresh now) s other spent =
        after_consume-IsSpent provider code one_time fresh now
          (consume_state c t provider state now s) other
          (consume_state-IsSpent provider state now s spent)
    step-IsSpent (fails provider state cancelled now) s _ spent =
        same-IsSpent (consume_state c t provider state now s).1
          (complete_provider_error c t provider state cancelled now s).1
          (ap (λ (x : OAuthState t). x.transactions)
            (then_do-pure _ (consume_state c t provider state now s)))
          (consume_state-IsSpent provider state now s spent)
    step-IsSpent (exchanges code verifier now d) s _ spent =
        exchange_code-IsSpent code verifier now d s spent
    step-IsSpent (cleans now) s _ spent = delete-IsSpent (λ r. ltb r.expires_at now) s spent

    pub steps-IsSpent :
        (qs : List OAuthCall) (s : OAuthState t)
        → All (Avoids h) qs
        → IsSpent h s
        → IsSpent h (steps qs s)
    steps-IsSpent [] s avoid spent = spent
    steps-IsSpent (q ∷ qs) s avoid spent =
        steps-IsSpent qs (step q s) avoid.1 (step-IsSpent q s avoid.0 spent)
