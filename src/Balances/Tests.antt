-- ===== src/Balances/Tests.antt =====
-- The balance service on concrete stores: rows in a list, and a cache that is a function.
use stow.Prelude.{◌≡◌, refl, none, List, [], ◌∷◌}
use stow.Prelude.Int.{pos, ◌+ℤ◌}
use stow.Prelude.Result.{ok, err, syntax_error}
use stow.Prelude.Table.{list_table}
use stow.Prelude.Cache.{function_cache}
use stow.Prelude.Refine.{serve_all}
use stow.Amounts.{decimal, malformed, sum_of}
use stow.Balances.{BalanceView, BalanceState, account_of, credit, set_balance, get, find_account}
use stow.Balances.Ledger.{Request, credits, sets, reads, serve, spec, book_of, serve_all-refines}
use stow.Balances.Coherence.{IsCoherent}

abbrev one_account : BalanceState (list_table account_of) (function_cache BalanceView)
one_account = record {
  rows = record { account = 7; amount = decimal (pos 50) } ∷ [];
  cached = λ _. none;
}

-- A read fills the cache, a credit and a withdrawal's absolute balance invalidate it.
abbrev requests : List Request
requests =
    reads 7
    ∷ credits 7 (decimal (pos 25))
    ∷ reads 7
    ∷ credits 7 (malformed 1)
    ∷ sets 7 (decimal (pos 5))
    ∷ reads 7
    ∷ reads 8
    ∷ []

serve_all-requests :
    (serve_all (serve (list_table account_of) (function_cache BalanceView)) requests one_account).0
    ≡ ok (decimal (pos 50))
      ∷ ok (decimal (pos 75))
      ∷ ok (decimal (pos 75))
      ∷ err syntax_error
      ∷ ok (decimal (pos 5))
      ∷ ok (decimal (pos 5))
      ∷ ok (decimal (pos 0))
      ∷ []
unfolding credit set_balance get sum_of ◌+ℤ◌
serve_all-requests = refl

find_account-unknown :
    (find_account (list_table account_of) (function_cache BalanceView) 8 one_account).0 ≡ ok none
unfolding find_account
find_account-unknown = refl

serve_all-refines_example :
    IsCoherent
      (list_table account_of)
      (function_cache BalanceView)
      (serve_all
        (serve (list_table account_of) (function_cache BalanceView))
        requests
        one_account).1
    × ((serve_all
          (serve (list_table account_of) (function_cache BalanceView))
          requests
          one_account).0
        ≡ (serve_all spec requests
            (book_of (list_table account_of) (function_cache BalanceView) one_account)).0)
    × (book_of
          (list_table account_of)
          (function_cache BalanceView)
          (serve_all
            (serve (list_table account_of) (function_cache BalanceView))
            requests
            one_account).1
        ≡ (serve_all spec requests
            (book_of (list_table account_of) (function_cache BalanceView) one_account)).1)
serve_all-refines_example =
    serve_all-refines (list_table account_of) (function_cache BalanceView) requests one_account
      (λ k v h. cc)
