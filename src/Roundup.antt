-- ===== src/Roundup.antt =====
-- backend/src/savings-roundup/services/roundup-calculator.service.ts: the amount by which a
-- transaction is rounded up. The conversions to and from dollars, on floating-point numbers only,
-- are left out.
pub mod Bounds
pub mod Records
pub mod Service
mod Tests
use stow.Prelude.{ℕ, Bool, true, false, Option, none, some, not, ◌&&◌, ◌||◌, if◌then◌else◌}
use stow.Prelude.Int.{ℤ, pos, ◌+ℤ◌, ◌-ℤ◌, ◌%ℤ◌, ltb_ℤ, ◌==ℤ◌}
use stow.Prelude.Result.{Result, ok, err}
use stow.Amounts.{Amount, big_int, zero_amount}

pub data RoundupMethod : Type 0 where
  nearest_dollar nearest_cent nearest_quarter percentage fixed_amount : RoundupMethod

-- The floating-point side of the percentage method.
pub record Numbers : Type 1 where
  pub Number : Type 0
  -- `Number(methodParameter) || 1`
  pub number_or_one : Option Amount → Number
  -- `percentage <= 0`, and `percentage >= 100`
  pub is_at_most_zero : Number → Bool
  pub is_at_least_hundred : Number → Bool
  -- `BigInt(Math.floor(Number(amount) * (percentage / 100)))`, which throws on no finite number
  pub floor_share : ℤ → Number → Result ℤ

-- The three `roundNearest…` methods, which differ in the unit.
unfoldable pub round_nearest : ℕ → ℤ → ℤ
round_nearest unit amount = if amount %ℤ unit ==ℤ pos 0 then pos 0 else pos unit -ℤ amount %ℤ unit

-- `if (max && roundup > max) roundup = max`: 0 is a falsy bigint
unfoldable pub capped : Option ℤ → ℤ → ℤ
capped none roundup = roundup
capped (some cap) roundup = if not (cap ==ℤ pos 0) && ltb_ℤ cap roundup then cap else roundup

unfoldable pub non_negative : ℤ → ℤ
non_negative roundup = if ltb_ℤ roundup (pos 0) then pos 0 else roundup

-- `methodParameter || 0`; an empty text reads as 0 as well.
abbrev pub parameter_or_zero : Option Amount → Amount
parameter_or_zero none = zero_amount
parameter_or_zero (some a) = a

module _ (n : Numbers) where
  unfoldable pub round_percentage : ℤ → n.Number → Result ℤ
  round_percentage amount p =
      if n.is_at_most_zero p || n.is_at_least_hundred p then ok (pos 0) else n.floor_share amount p

  -- The `switch` on the method.
  unfoldable pub uncapped : ℤ → RoundupMethod → Option Amount → Result ℤ
  unfolding round_percentage round_nearest
  uncapped amount nearest_dollar parameter = ok (round_nearest 10_000_000 amount)
  uncapped amount nearest_cent parameter = ok (round_nearest 100_000 amount)
  uncapped amount nearest_quarter parameter = ok (round_nearest 2_500_000 amount)
  uncapped amount percentage parameter = round_percentage amount (n.number_or_one parameter)
  uncapped amount fixed_amount parameter = big_int (parameter_or_zero parameter)

  unfoldable pub calculate_roundup : ℤ → RoundupMethod → Option Amount → Option ℤ → Result ℤ
  unfolding uncapped capped non_negative
  calculate_roundup amount method parameter cap = elim (uncapped amount method parameter) [
    | ok roundup ↦ ok (non_negative (capped cap roundup))
    | err e ↦ err e
  ]

  unfoldable pub get_rounded_amount : ℤ → RoundupMethod → Option Amount → Option ℤ → Result ℤ
  unfolding calculate_roundup
  get_rounded_amount original method parameter cap =
      elim (calculate_roundup original method parameter cap) [
        | ok roundup ↦ ok (original +ℤ roundup)
        | err e ↦ err e
      ]
