-- ===== src/Roundup/Tests.antt =====
-- Round-ups of concrete amounts, with percentages that are whole numbers.
use stow.Prelude.{ℕ, ◌≡◌, refl, true, Option, none, some, if◌then◌else◌}
use stow.Prelude.Int.{ℤ, pos, ◌*ℤ◌, ◌/ℤ◌, ◌≤ℤ◌, ltb_ℤ, leb_ℤ, ◌==ℤ◌, ◌%ℤ◌, ◌-ℤ◌}
use stow.Prelude.Result.{ok}
use stow.Amounts.{Amount, decimal, blank, malformed}
use stow.Roundup.{RoundupMethod, Numbers, calculate_roundup, get_rounded_amount}
use stow.Roundup.Bounds.{
  IsNextMultiple, calculate_roundup-bounds, get_rounded_amount-IsNextMultiple,
}

abbrev or_one : Option Amount → ℤ
or_one none = pos 1
or_one (some (decimal z)) = if z ==ℤ pos 0 then pos 1 else z
or_one (some blank) = pos 1
or_one (some (malformed _)) = pos 1

abbrev whole_percents : Numbers
whole_percents = record {
  Number = ℤ;
  number_or_one = or_one;
  is_at_most_zero = λ p. leb_ℤ p (pos 0);
  is_at_least_hundred = λ p. leb_ℤ (pos 100) p;
  floor_share = λ a p. ok (a *ℤ p /ℤ pos 100);
}

-- 12.34 dollars, rounded up to 13.
cents_left :
    calculate_roundup whole_percents (pos 123_400_000) RoundupMethod.nearest_dollar none none
    ≡ ok (pos 6_600_000)
unfolding calculate_roundup ◌%ℤ◌ ◌-ℤ◌
cents_left = refl

five_percent :
    calculate_roundup whole_percents
      (pos 2000)
      RoundupMethod.percentage
      (some (decimal (pos 5)))
      (some (pos 60))
    ≡ ok (pos 60)
unfolding calculate_roundup ◌*ℤ◌ ◌/ℤ◌
five_percent = refl

calculate_roundup-bounds_example :
    (pos 0 ≤ℤ pos 60) × (ltb_ℤ (pos 0) (pos 60) ≡ true → pos 60 ≤ℤ pos 60)
calculate_roundup-bounds_example =
    calculate_roundup-bounds whole_percents (pos 2000) RoundupMethod.percentage
      (some (decimal (pos 5))) (pos 60) (pos 60) five_percent

get_rounded_amount-IsNextMultiple_example :
    (k : ℕ) × (get_rounded_amount whole_percents
        (pos 123_400_000)
        RoundupMethod.nearest_cent
        none
        none
      ≡ ok (pos k))
    × IsNextMultiple 100_000 123_400_000 k
get_rounded_amount-IsNextMultiple_example =
    get_rounded_amount-IsNextMultiple whole_percents 123_400_000 100_000 RoundupMethod.nearest_cent
      none refl
