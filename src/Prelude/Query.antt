-- ===== src/Prelude/Query.antt =====
-- A query by a test over a table that is a list: the rows that are found and pass.
use stow.Prelude.{
  ℕ, ◌≡◌, ◌⊎◌, refl, sym, ap, ◌∙◌, inl, inr, Bool, true, Option, none, some, List, [], ◌∷◌, All, In,
  ◌==◌, ==_iff, Bool-cases, if◌then◌else◌,
}
use stow.Prelude.Table.{find_row, find_row-key}

module _ {Row : Type 0} (key : Row → ℕ) (passes : Row → Bool) where
  abbrev add_found : Option Row → List Row → List Row
  add_found none rs = rs
  add_found (some r) rs = if passes r then r ∷ rs else rs

  -- Of the rows found under the keys of a list, those that pass.
  abbrev pub found_of : List Row → List Row → List Row
  found_of s [] = []
  found_of s (x ∷ xs) = add_found (find_row key (key x) s) (found_of s xs)

  abbrev pub IsFound : List Row → Row → Type 0
  IsFound s r = (passes r ≡ true) × (find_row key (key r) s ≡ some r)

  add_found-IsFound :
      (k : ℕ) (s : List Row) (o : Option Row) (rs : List Row)
      → find_row key k s ≡ o
      → All (IsFound s) rs
      → All (IsFound s) (add_found o rs)
  add_found-IsFound k s none rs found h = h
  add_found-IsFound k s (some r) rs found h = elim (Bool-cases (passes r)) [
    | inl here ↦
        let at_key : find_row key (key r) s ≡ some r =
          ap (λ i. find_row key i s) (find_row-key key k s r found) ∙ found in
        rw here ((here, at_key), h)
    | inr not_here ↦ rw not_here h
  ]

  pub found_of-IsFound : (s xs : List Row) → All (IsFound s) (found_of s xs)
  found_of-IsFound s [] = tt
  found_of-IsFound s (x ∷ xs) =
      add_found-IsFound (key x) s (find_row key (key x) s) (found_of s xs) refl
        (found_of-IsFound s xs)

  -- Some row of the list has the key.
  abbrev pub HasKey : ℕ → List Row → Type 0
  HasKey k [] = ⊥
  HasKey k (x ∷ xs) = (key x ≡ k) ⊎ HasKey k xs

  find_row-HasKey : (k : ℕ) (xs : List Row) (r : Row) → find_row key k xs ≡ some r → HasKey k xs
  find_row-HasKey k [] r found = absurd cc
  find_row-HasKey k (x ∷ xs) r found = elim (Bool-cases (k == key x)) [
    | inl same ↦ inl (sym ((==_iff k (key x)).0 same))
    | inr other ↦ inr (find_row-HasKey k xs r (rw other at found))
  ]

  add_found-In : (o : Option Row) (r : Row) (rs : List Row) → In r rs → In r (add_found o rs)
  add_found-In none r rs h = h
  add_found-In (some x) r rs h = elim (Bool-cases (passes x)) [
    | inl here ↦ rw here (inr h)
    | inr not_here ↦ rw not_here h
  ]

  listed_In :
      (s xs : List Row) (r : Row)
      → find_row key (key r) s ≡ some r
      → passes r ≡ true
      → HasKey (key r) xs
      → In r (found_of s xs)
  listed_In s [] r found pass h = absurd h
  listed_In s (x ∷ xs) r found pass (inr later) =
      add_found-In (find_row key (key x) s) r (found_of s xs) (listed_In s xs r found pass later)
  listed_In s (x ∷ xs) r found pass (inl same) =
      let at_x : find_row key (key x) s ≡ some r = ap (λ i. find_row key i s) same ∙ found in
      rw (at_x, pass) (inl refl)

  -- Every row that is found and passes is in the answer.
  pub found_of-In :
      (s : List Row) (r : Row)
      → find_row key (key r) s ≡ some r
      → passes r ≡ true
      → In r (found_of s s)
  found_of-In s r found pass = listed_In s s r found pass (find_row-HasKey (key r) s r found)
