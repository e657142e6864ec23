-- ===== src/Balances.antt =====
-- backend/src/savings/balance.service.ts: the flexible balances, with their read cache.
-- The balances are a table keyed by account (entities/balance.entity.ts); the primary key and the
-- two timestamps, which the database fills in, are left out. The cache holds views keyed by
-- `cacheKey(account)`, here by the account.
pub mod Coherence
pub mod Ledger
mod Tests
use stow.Prelude.{ℕ, Option, none, some}
use stow.Prelude.Result.{Action, ok, gets, lift, pure, ◌>>=◌}
use stow.Prelude.Table.{Table}
use stow.Prelude.Cache.{Cache}
use stow.Amounts.{Amount, zero_amount, sum_of}

pub record Balance : Type 0 where
  pub account : ℕ
  pub amount : Amount

abbrev pub account_of : Balance → ℕ
account_of b = b.account

pub record BalanceView : Type 0 where
  pub account : ℕ
  pub amount : Amount

abbrev pub BalanceTable : Type 1
BalanceTable = Table Balance account_of

-- `create({ account, amount: '0' })` where the row is missing
abbrev pub found_or_new : ℕ → Option Balance → Balance
found_or_new account none = record { account = account; amount = zero_amount }
found_or_new account (some b) = b

-- `{ account, amount: balance?.amount ?? '0' }`
abbrev pub view_of : ℕ → Option Balance → BalanceView
view_of account none = record { account = account; amount = zero_amount }
view_of account (some b) = record { account = account; amount = b.amount }

abbrev pub account_view : Balance → BalanceView
account_view b = record { account = b.account; amount = b.amount }

-- The stored row as `findAccount` returns it, `null` where there is none.
abbrev pub found_view : Option Balance → Option BalanceView
found_view none = none
found_view (some b) = some (account_view b)

pub record BalanceState (t : BalanceTable) (c : Cache BalanceView) : Type 0 where
  pub rows : t.Store
  pub cached : c.Entries

module _ (t : BalanceTable) (c : Cache BalanceView) where
  -- `save(balance)`, then `cache.del(cacheKey(account))`
  pub save_and_invalidate : ℕ → Balance → Action (BalanceState t c) Balance
  save_and_invalidate account b s =
      (ok b, record { rows = t.save b s.rows; cached = c.del account s.cached })

  unfoldable pub credit : ℕ → Amount → Action (BalanceState t c) Balance
  unfolding save_and_invalidate
  credit account amount = do
    balance ← gets (λ s. found_or_new account (t.find_one account s.rows))
    total ← lift (sum_of balance.amount amount)
    save_and_invalidate account (record balance { amount = total })

  unfoldable pub set_balance : ℕ → Amount → Action (BalanceState t c) Balance
  unfolding save_and_invalidate
  set_balance account amount = do
    balance ← gets (λ s. found_or_new account (t.find_one account s.rows))
    save_and_invalidate account (record balance { amount = amount })

  -- the rest of `get`, after the cache was asked
  fill : ℕ → Option BalanceView → Action (BalanceState t c) BalanceView
  fill account (some cached) s = (ok cached, s)
  fill account none s =
      let view = view_of account (t.find_one account s.rows) in
      (ok view, record s { cached = c.set account view s.cached })

  unfoldable pub get : ℕ → Action (BalanceState t c) BalanceView
  unfolding fill
  get account = do cached ← gets (λ s. c.get account s.cached); fill account cached

  pub find_account : ℕ → Action (BalanceState t c) (Option BalanceView)
  find_account account = do row ← gets (λ s. t.find_one account s.rows); pure (found_view row)
