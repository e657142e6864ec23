-- ===== src/Auth/OAuth/Exchange.antt =====
-- backend/src/auth/oauth.service.ts: the exchange of a one-time code, and the calls that follow it.
use stow.Prelude.{
  ℕ, ◌≡◌, refl, sym, ap, ◌∙◌, inl, inr, true, false, Option, none, some, List, All, length, ltb,
  leb, ◌==◌, ==_iff, ◌||◌, Bool-cases, Option-cases, some-eq,
}
use stow.Prelude.Rows.{changed_from}
use stow.Prelude.Result.{Result, ok, err, unauthorized}
use stow.Auth.Entries.{Text}
use stow.Auth.Sessions.{User, SessionTokens, Drawn}
use stow.Auth.OAuth.{
  is_none, OAuthTransaction, OAuthConfig, OAuthTables, OAuthState, is_empty,
  matches_client_verifier, affects,
}
use stow.Auth.OAuth.Callback.{
  has_code, can_exchange, exchanged, exchange_for_user, exchange_found, exchange_code,
}
use stow.Auth.OAuth.Spent.{
  OAuthCall, steps, Avoids, IsStored, IsSpent, exchange_for_user-transactions, steps-IsSpent,
}

module _ (c : OAuthConfig) (t : OAuthTables) where
  -- At most one stored transaction has a code of the digest (the column is unique).
  abbrev pub IsUniqueCode : ℕ → OAuthState t → Type 0
  IsUniqueCode h s =
      (r q : OAuthTransaction)
      → IsStored c t r s
      → IsStored c t q s
      → r.exchange_code_hash ≡ some h
      → q.exchange_code_hash ≡ some h
      → r.id ≡ q.id

  err-ne-ok :
      (x : SessionTokens × User)
      → ¬ (◌≡◌ {A = Result (SessionTokens × User)} (err unauthorized) (ok x))
  err-ne-ok x e = cc

  has_code-parts :
      (h : ℕ) (r : OAuthTransaction)
      → has_code c t h r ≡ true
      → (r.exchange_code_hash ≡ some h) × (is_none r.exchanged_at ≡ true)
  has_code-parts h r e = elim (Option-cases r.exchange_code_hash) [
    | inl missing ↦ let wrong : false ≡ true = rw missing at e in absurd cc
    | inr (g, is) ↦ elim (Bool-cases (g == h)) [
      | inl same ↦ (is ∙ ap some ((==_iff g h).0 same), (rw (is, same) at e))
      | inr other ↦ let wrong : false ≡ true = rw (is, other) at e in absurd cc
    ]
  ]

  -- The transaction of an exchange that succeeds.
  exchanged_row :
      (h : ℕ) (o : Option OAuthTransaction) (verifier : Text) (now : ℕ) (d : Drawn)
      (x : SessionTokens × User) (s : OAuthState t)
      → (exchange_found c t o verifier now d s).0 ≡ ok x
      → (r : OAuthTransaction) × (o ≡ some r)
        × (affects c t
              (can_exchange c t r.id now)
              (t.transactions.rows.find_one r.id s.transactions)
            ≡ true)
        × ((exchange_found c t o verifier now d s).1.transactions
            ≡ t.transactions.update_where
                (can_exchange c t r.id now)
                (exchanged c t now)
                s.transactions)
  exchanged_row h none verifier now d x s done = absurd (err-ne-ok x done)
  exchanged_row h (some r) verifier now d x s done = elim (Bool-cases (leb r.expires_at now)) [
    | inl over ↦ absurd (err-ne-ok x (rw over at done))
    | inr young ↦ rw young (for_user r.user_id (rw young at done))
  ]
    where
      for_user :
          (user : Option ℕ)
          → (exchange_for_user c t user r verifier now d s).0 ≡ ok x
          → (q : OAuthTransaction) × (some r ≡ some q)
            × (affects c t
                  (can_exchange c t q.id now)
                  (t.transactions.rows.find_one q.id s.transactions)
                ≡ true)
            × ((exchange_for_user c t user r verifier now d s).1.transactions
                ≡ t.transactions.update_where
                    (can_exchange c t q.id now)
                    (exchanged c t now)
                    s.transactions)
      for_user none got = absurd (err-ne-ok x got)
      for_user (some user) got =
          elim (Bool-cases (matches_client_verifier c t r.client_verifier_hash verifier)) [
            | inr wrong ↦ absurd (err-ne-ok x (rw wrong at got))
            | inl right ↦
                elim (Bool-cases (
                  affects c t (can_exchange c t r.id now)
                    (t.transactions.rows.find_one r.id s.transactions))) [
                      | inr missed ↦ absurd (err-ne-ok x (rw (right, missed) at got))
                      | inl hit ↦ (
                        r,
                        refl,
                        hit,
                        exchange_for_user-transactions c t 0 user r verifier now d s right,
                      )
                    ]
          ]

  -- After the update of the one transaction with the code, the code is spent.
  updated-IsSpent :
      (h now : ℕ) (r : OAuthTransaction) (s s' : OAuthState t)
      → IsUniqueCode h s
      → IsStored c t r s
      → r.exchange_code_hash ≡ some h
      → can_exchange c t r.id now r ≡ true
      → s'.transactions
        ≡ t.transactions.update_where (can_exchange c t r.id now) (exchanged c t now) s.transactions
      → IsSpent c t h s'
  updated-IsSpent h now r s s' unique there code passes is q stored has =
      let p = can_exchange c t r.id now in
      let (x, before, how) =
        changed_from p (exchanged c t now) (t.transactions.rows.find_one q.id s.transactions) q (
          sym (
            t.transactions.find_one-update_where p (exchanged c t now) q.id s.transactions
              (λ y. refl))
          ∙ ap (λ y. t.transactions.rows.find_one q.id y) (sym is)
          ∙ stored) in
      elim how [
        | inl (_, marked) ↦ ap (λ (y : OAuthTransaction). is_none y.exchanged_at) marked
        | inr (out, kept) ↦
            let old : IsStored c t q s = before ∙ ap some (sym kept) in
            let id : q.id ≡ r.id = unique q r old there has code in
            let same : q ≡ r =
              some-eq
                (sym old ∙ ap (λ i. t.transactions.rows.find_one i s.transactions) id ∙ there) in
            let wrong : true ≡ false = sym passes ∙ ap p (sym same ∙ kept) ∙ out in absurd cc
      ]

  exchange_spent :
      (code verifier : Text) (now : ℕ) (d : Drawn) (s : OAuthState t)
      → IsSpent c t (c.auth.sha256 code) s
      → exchange_code c t code verifier now d s ≡ (err unauthorized, s)
  unfolding exchange_code
  exchange_spent code verifier now d s spent =
      elim (Bool-cases (is_empty code || ltb 128 (length code))) [
        | inl malformed ↦ rw malformed refl
        | inr given ↦ rw given (
            by_found (t.transactions.find_where (has_code c t (c.auth.sha256 code)) s.transactions)
              refl)
      ]
    where
      by_found :
          (o : Option OAuthTransaction)
          → t.transactions.find_where (has_code c t (c.auth.sha256 code)) s.transactions ≡ o
          → exchange_found c t o verifier now d s ≡ (err unauthorized, s)
      by_found none found = refl
      by_found (some r) found =
          let (passes, there) =
            t.transactions.find_where-found (has_code c t (c.auth.sha256 code)) s.transactions r
              found in
          let (has, fresh) = has_code-parts (c.auth.sha256 code) r passes in
          let wrong : true ≡ false = sym fresh ∙ spent r there has in absurd cc

  exchange-IsSpent :
      (code verifier : Text) (now : ℕ) (d : Drawn) (x : SessionTokens × User) (s : OAuthState t)
      → IsUniqueCode (c.auth.sha256 code) s
      → (exchange_code c t code verifier now d s).0 ≡ ok x
      → IsSpent c t (c.auth.sha256 code) (exchange_code c t code verifier now d s).1
  unfolding exchange_code
  exchange-IsSpent code verifier now d x s unique done =
      elim (Bool-cases (is_empty code || ltb 128 (length code))) [
        | inl malformed ↦ absurd (err-ne-ok x (rw malformed at done))
        | inr given ↦
            let h = c.auth.sha256 code in
            let o = t.transactions.find_where (has_code c t h) s.transactions in
            let (r, found, hit, is) = exchanged_row h o verifier now d x s (rw given at done) in
            let (passes, there) =
              t.transactions.find_where-found (has_code c t h) s.transactions r found in
            let (code_is, _) = has_code-parts h r passes in
            let can : can_exchange c t r.id now r ≡ true =
              ap (affects c t (can_exchange c t r.id now)) (sym there) ∙ hit in
            rw given (
              updated-IsSpent h now r s (exchange_found c t o verifier now d s).1 unique there
                code_is can is)
      ]

  -- Where at most one stored transaction has a code of its digest: once a code was exchanged for a
  -- session, every later exchange of it throws and changes nothing, whatever verifier comes with
  -- it and whatever calls came between, as long as no callback draws a code of the same digest.
  pub exchange_once :
      (code verifier verifier' : Text) (now later : ℕ) (d d' : Drawn) (x : SessionTokens × User)
      (qs : List OAuthCall) (s : OAuthState t)
      → IsUniqueCode (c.auth.sha256 code) s
      → (exchange_code c t code verifier now d s).0 ≡ ok x
      → All (Avoids c t (c.auth.sha256 code)) qs
      → let since = steps c t qs (exchange_code c t code verifier now d s).1 in
        exchange_code c t code verifier' later d' since ≡ (err unauthorized, since)
  exchange_once code verifier verifier' now later d d' x qs s unique done avoid =
      exchange_spent code verifier' later d'
        (steps c t qs (exchange_code c t code verifier now d s).1)
        (steps-IsSpent c t (c.auth.sha256 code) qs (exchange_code c t code verifier now d s).1 avoid
          (exchange-IsSpent code verifier now d x s unique done))
