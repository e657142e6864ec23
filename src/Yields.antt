-- ===== src/Yields.antt =====
-- backend/src/savings/savings.service.ts: the positions in the yield adapter.
-- The positions are a table keyed by owner (entities/yield-position.entity.ts).
use stow.Prelude.{ℕ, Option, none, some}
use stow.Prelude.Result.{ok, Action, gets, ◌>>=◌}
use stow.Prelude.Table.{Table}
use stow.Amounts.{Amount, zero_amount}

pub record YieldPosition : Type 0 where
  pub owner : ℕ
  pub shares : Amount
  pub exchange_rate_snapshot : Option Amount

abbrev pub owner_of : YieldPosition → ℕ
owner_of p = p.owner

abbrev pub PositionTable : Type 1
PositionTable = Table YieldPosition owner_of

abbrev pub found_or_new : ℕ → Option YieldPosition → YieldPosition
found_or_new owner none = record {
  owner = owner;
  shares = zero_amount;
  exchange_rate_snapshot = none;
}
found_or_new owner (some p) = p

-- `if (exchangeRate !== undefined) position.exchange_rate_snapshot = exchangeRate`
abbrev pub with_rate : Option Amount → YieldPosition → YieldPosition
with_rate none p = p
with_rate (some rate) p = record p { exchange_rate_snapshot = some rate }

module _ (t : PositionTable) where
  abbrev save_position : YieldPosition → Action t.Store YieldPosition
  save_position p s = (ok p, t.save p s)

  unfoldable pub upsert_yield_position : ℕ → Amount → Option Amount → Action t.Store YieldPosition
  upsert_yield_position owner shares rate = do
    p ← gets (λ s. found_or_new owner (t.find_one owner s))
    save_position (with_rate rate (record p { shares = shares }))
