-- ===== src/Roundup/Bounds.antt =====
-- backend/src/savings-roundup/services/roundup-calculator.service.ts: the size of a round-up.
use mathlib.Core.Path.{subst}
use native.Mathlib.Nat.{mod-lt, mod_self, mod-add-mod}
use stow.Prelude.{
  ℕ, ◌+◌, ◌-◌, ◌%◌, ◌==◌, refl, sym, ap, ◌∙◌, Bool-cases, some-eq, ◌≤◌, ◌<◌, ◌≡◌, inl, inr, true,
  Option, none, some, arith,
}
use stow.Prelude.Int.{ℤ, pos, ◌+ℤ◌, ◌-ℤ◌, ◌%ℤ◌, ◌≤ℤ◌, ltb_ℤ}
use stow.Prelude.Result.{Result, ok, Result-cases}
use stow.Amounts.{Amount}
use stow.Roundup.{
  RoundupMethod, nearest_dollar, nearest_cent, nearest_quarter, percentage, fixed_amount, Numbers,
  round_nearest, capped, non_negative, uncapped, calculate_roundup, get_rounded_amount,
}

-- The unit of a method that rounds to a multiple.
abbrev pub unit_of : RoundupMethod → Option ℕ
unit_of nearest_dollar = some 10_000_000
unit_of nearest_cent = some 100_000
unit_of nearest_quarter = some 2_500_000
unit_of percentage = none
unit_of fixed_amount = none

non_negative-bounds :
    (c r : ℤ)
    → (pos 0 ≤ℤ non_negative (capped (some c) r))
      × (ltb_ℤ (pos 0) c ≡ true → non_negative (capped (some c) r) ≤ℤ c)
unfolding non_negative capped
non_negative-bounds c r = ground arith

-- What is the least multiple of the unit from an amount of 0 or more: the amount itself where that
-- is a multiple.
abbrev pub IsNextMultiple : ℕ → ℕ → ℕ → Type 0
IsNextMultiple unit amount rounded =
    (rounded % unit ≡ 0)
    × (amount ≤ rounded)
    × (rounded < amount + unit)
    × (amount % unit ≡ 0 → rounded ≡ amount)

module _ (n : Numbers) where
  -- Whatever the method, its parameter, the amount and the cap, a round-up that is returned is
  -- never negative and never above a positive cap.
  pub calculate_roundup-bounds :
      (amount : ℤ) (method : RoundupMethod) (parameter : Option Amount) (cap r : ℤ)
      → calculate_roundup n amount method parameter (some cap) ≡ ok r
      → (pos 0 ≤ℤ r) × (ltb_ℤ (pos 0) cap ≡ true → r ≤ℤ cap)
  unfolding calculate_roundup
  calculate_roundup-bounds amount method parameter cap r e =
      elim (Result-cases (uncapped n amount method parameter)) [
        | inl (x, failed) ↦ ground arith
        | inr (u, done) ↦ ground (arith, non_negative-bounds cap u)
      ]

  round_nearest_lem :
      (unit : ℕ) (amount : ℕ)
      → 0 < unit
      → (k : ℕ) × (pos amount +ℤ non_negative (round_nearest unit (pos amount)) ≡ pos k)
        × IsNextMultiple unit amount k
  unfolding round_nearest non_negative ◌%ℤ◌ ◌-ℤ◌ ◌+ℤ◌
  round_nearest_lem unit amount nonzero =
      let r = amount % unit in
      let below : r < unit = mod-lt amount nonzero in
      let lands : (amount + (unit - r)) % unit ≡ 0 =
        sym (mod-add-mod amount unit (unit - r))
        ∙ ap (λ x. x % unit) (omega arith)
        ∙ mod_self unit in
      elim (Bool-cases (r == 0)) [
        | inl exact ↦ (amount, ground arith, (ground arith, omega arith, omega arith, λ e. refl))
        | inr over ↦ (
          amount + (unit - r),
          ground arith,
          (lands, omega arith, ground arith, λ e. absurd (ground arith)),
        )
      ]

  by_unit :
      (u unit amount : ℕ)
      → 0 < u
      → u ≡ unit
      → (k : ℕ) × (◌≡◌ {A = Result ℤ}
          (ok (pos amount +ℤ non_negative (round_nearest u (pos amount))))
          (ok (pos k)))
        × IsNextMultiple unit amount k
  by_unit u unit amount nonzero same =
      let (k, lands, next) = round_nearest_lem u amount nonzero in
      (k, ap ok lands, subst (λ v. IsNextMultiple v amount k) same next)

  -- Rounding an amount of 0 or more to the dollar, the cent or the quarter, without a cap, gives
  -- the least multiple of the unit that is not below the amount; an amount that is a multiple of the
  -- unit, such as $12.34 under the nearest cent, stays as it is.
  pub get_rounded_amount-IsNextMultiple :
      (amount unit : ℕ) (method : RoundupMethod) (parameter : Option Amount)
      → unit_of method ≡ some unit
      → (k : ℕ) × (get_rounded_amount n (pos amount) method parameter none ≡ ok (pos k))
        × IsNextMultiple unit amount k
  unfolding get_rounded_amount calculate_roundup uncapped capped
  get_rounded_amount-IsNextMultiple amount unit nearest_dollar parameter e =
      by_unit 10_000_000 unit amount (omega arith) (some-eq e)
  get_rounded_amount-IsNextMultiple amount unit nearest_cent parameter e =
      by_unit 100_000 unit amount (omega arith) (some-eq e)
  get_rounded_amount-IsNextMultiple amount unit nearest_quarter parameter e =
      by_unit 2_500_000 unit amount (omega arith) (some-eq e)
  get_rounded_amount-IsNextMultiple amount unit percentage parameter e = absurd (ground arith)
  get_rounded_amount-IsNextMultiple amount unit fixed_amount parameter e = absurd (ground arith)
