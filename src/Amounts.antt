-- ===== src/Amounts.antt =====
-- Amounts and identifiers as the services exchange them: strings.
--
-- A string that is only compared is a number, its index in some fixed enumeration of the strings;
-- the three that the code names are constants. A string that stands for an amount is told apart by
-- what `BigInt(text)` makes of it: an integer, or a SyntaxError. The empty string has its own
-- constructor, since it is falsy in a test and reads as 0.
use stow.Prelude.{ℕ, Bool, true, false}
use stow.Prelude.Int.{ℤ, pos, ◌+ℤ◌}
use stow.Prelude.Result.{Result, ok, err, syntax_error}

-- `''`, and `String(undefined)` and `String(null)`
abbrev pub empty_text : ℕ
empty_text = 0

abbrev pub undefined_text : ℕ
undefined_text = 1

abbrev pub null_text : ℕ
null_text = 2

pub data Amount : Type 0 where
  -- a string that `BigInt` reads as this integer, such as the integer's `toString()`
  decimal : ℤ → Amount
  blank : Amount
  -- a string that `BigInt` refuses
  malformed : ℕ → Amount

-- `BigInt(text)`
abbrev pub big_int : Amount → Result ℤ
big_int (decimal z) = ok z
big_int blank = ok (pos 0)
big_int (malformed _) = err syntax_error

abbrev pub is_truthy : Amount → Bool
is_truthy blank = false
is_truthy _ = true

-- the text '0'
abbrev pub zero_amount : Amount
zero_amount = decimal (pos 0)

abbrev pub sum_parts : Result ℤ → Result ℤ → Result Amount
sum_parts (ok x) (ok y) = ok (decimal (x +ℤ y))
sum_parts (ok x) (err e) = err e
sum_parts (err e) _ = err e

-- `(BigInt(held) + BigInt(added)).toString()`
unfoldable pub sum_of : Amount → Amount → Result Amount
sum_of held added = sum_parts (big_int held) (big_int added)
