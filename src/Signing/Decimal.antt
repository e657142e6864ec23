-- ===== src/Signing/Decimal.antt =====
-- Numbers as decimal texts: JavaScript's `n.toString()` of a natural number, and
-- `parseInt(text, 10)`. A text is the list of its character codes.
use mathlib.Core.Path.{subst}
use stow.Prelude.{
  sym, ℕ, zero, suc, ◌+◌, ◌-◌, ◌*◌, ◌/◌, ◌%◌, ◌<◌, ◌≡◌, refl, ap, ◌∙◌, inl, inr, Bool, true, false,
  Option, none, some, List, [], ◌∷◌, ◌++◌, All, arith, ltb, leb, ◌==◌, ◌&&◌, ◌||◌, Bool-cases,
  if◌then◌else◌,
}
use stow.Prelude.Int.{ℤ, pos, sub_ℕ}

abbrev pub Text : Type 0
Text = List ℕ

-- The digits of `n`, on fuel.
unfoldable pub digits : ℕ → ℕ → Text
digits zero n = []
digits (suc fuel) n =
    let higher = digits fuel (n / 10) in
    if ltb n 10 then (n + 48) ∷ [] else higher ++ ((n % 10 + 48) ∷ [])

unfoldable pub to_text : ℕ → Text
unfolding digits
to_text n = digits (suc n) n

abbrev pub is_digit : ℕ → Bool
is_digit c = leb 48 c && leb c 57

abbrev pub is_space : ℕ → Bool
is_space c = c == 32 || (leb 9 c && leb c 13)

-- The number that the leading digits of a text continue.
unfoldable pub parse_digits : ℕ → Text → ℕ
parse_digits n [] = n
parse_digits n (c ∷ cs) =
    let rest = parse_digits (n * 10 + (c - 48)) cs in if is_digit c then rest else n

abbrev pub parse_unsigned : Text → Option ℕ
parse_unsigned [] = none
parse_unsigned (c ∷ cs) = if is_digit c then some (parse_digits 0 (c ∷ cs)) else none

abbrev pub skip_spaces : Text → Text
skip_spaces [] = []
skip_spaces (c ∷ cs) = let rest = skip_spaces cs in if is_space c then rest else c ∷ cs

abbrev negated : Option ℕ → Option ℤ
negated none = none
negated (some n) = some (sub_ℕ 0 n)

abbrev unchanged : Option ℕ → Option ℤ
unchanged none = none
unchanged (some n) = some (pos n)

abbrev pub parse_signed : Text → Option ℤ
parse_signed [] = none
parse_signed (c ∷ cs) =
    if c == 45
    then negated (parse_unsigned cs)
    else if c == 43
    then unchanged (parse_unsigned cs)
    else unchanged (parse_unsigned (c ∷ cs))

-- `none` is NaN.
unfoldable pub parse_int : Text → Option ℤ
unfolding parse_digits
parse_int text = parse_signed (skip_spaces text)

AllDigits : Text → Type 0
AllDigits cs = All (λ c. is_digit c ≡ true) cs

AllDigits-append :
    (xs : Text) (c : ℕ) → AllDigits xs → is_digit c ≡ true → AllDigits (xs ++ (c ∷ []))
unfolding AllDigits
AllDigits-append [] c h d = (d, tt)
AllDigits-append (x ∷ xs) c h d = (h.0, AllDigits-append xs c h.1 d)

parse_digits-append :
    (xs : Text) (n c : ℕ)
    → AllDigits xs
    → is_digit c ≡ true
    → parse_digits n (xs ++ (c ∷ [])) ≡ parse_digits n xs * 10 + (c - 48)
unfolding AllDigits parse_digits
parse_digits-append [] n c h d = rw d refl
parse_digits-append (x ∷ xs) n c h d = rw h.0 (parse_digits-append xs (n * 10 + (x - 48)) c h.1 d)

digits-AllDigits : (fuel n : ℕ) → AllDigits (digits fuel n)
unfolding AllDigits digits
digits-AllDigits zero n = tt
digits-AllDigits (suc fuel) n = elim (Bool-cases (ltb n 10)) [
  | inl small ↦ let d : is_digit (n + 48) ≡ true = ground arith in rw small (d, tt)
  | inr big ↦
      let d : is_digit (n % 10 + 48) ≡ true = ground arith in
      rw big
        (AllDigits-append (digits fuel (n / 10)) (n % 10 + 48) (digits-AllDigits fuel (n / 10)) d)
]

parse_digits-digits : (fuel n : ℕ) → n < fuel → parse_digits 0 (digits fuel n) ≡ n
unfolding digits parse_digits
parse_digits-digits zero n h = absurd (omega arith)
parse_digits-digits (suc fuel) n h = elim (Bool-cases (ltb n 10)) [
  | inl small ↦ let d : is_digit (n + 48) ≡ true = ground arith in rw (small, d) (omega arith)
  | inr big ↦
      let d : is_digit (n % 10 + 48) ≡ true = ground arith in
      let rest = parse_digits-digits fuel (n / 10) (ground arith) in
      rw
        (
          big,
          parse_digits-append (digits fuel (n / 10)) 0 (n % 10 + 48)
              (digits-AllDigits fuel (n / 10)) d,
          rest,
        )
        (omega arith)
]

append-cons : (xs : Text) (c : ℕ) → (d : ℕ) × (ds : Text) × (xs ++ (c ∷ []) ≡ d ∷ ds)
append-cons [] c = (c, [], refl)
append-cons (x ∷ xs) c = (x, xs ++ (c ∷ []), refl)

digits-cons : (fuel n : ℕ) → (c : ℕ) × (cs : Text) × (digits (suc fuel) n ≡ c ∷ cs)
unfolding digits
digits-cons fuel n = elim (Bool-cases (ltb n 10)) [
  | inl small ↦ (n + 48, [], rw small refl)
  | inr big ↦
      let (c, cs, is) = append-cons (digits fuel (n / 10)) (n % 10 + 48) in (c, cs, rw big is)
]

-- A text of a number is not empty.
pub to_text-cons : (n : ℕ) → (c : ℕ) × (cs : Text) × (to_text n ≡ c ∷ cs)
unfolding to_text
to_text-cons n = digits-cons n n

parse_int-digits :
    (c : ℕ) (cs : Text)
    → AllDigits (c ∷ cs)
    → parse_int (c ∷ cs) ≡ some (pos (parse_digits 0 (c ∷ cs)))
unfolding AllDigits parse_int
parse_int-digits c cs h =
    let no_space : is_space c ≡ false = ground (arith, h.0) in
    let no_minus : (c == 45) ≡ false = ground (arith, h.0) in
    let no_plus : (c == 43) ≡ false = ground (arith, h.0) in
    rw (no_space, no_minus, no_plus, h.0) refl

-- A number is read back from its text.
pub parse_int-to_text : (n : ℕ) → parse_int (to_text n) ≡ some (pos n)
unfolding to_text
parse_int-to_text n =
    let (c, cs, is) = digits-cons n n in
    let valid : AllDigits (c ∷ cs) = subst AllDigits is (digits-AllDigits (suc n) n) in
    let read : parse_digits 0 (c ∷ cs) ≡ n =
      ap (parse_digits 0) (sym is) ∙ parse_digits-digits (suc n) n (omega arith) in
    ap parse_int is ∙ parse_int-digits c cs valid ∙ ap (λ k. some (pos k)) read
