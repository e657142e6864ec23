-- ===== src/Prelude/Rows.antt =====
-- A repository that is also queried, updated and deleted from by tests on the columns
-- (`findOneBy({ ... })`, `update({ ... }, { ... })`, `delete({ ... })`).
use stow.Prelude.{
  ℕ, ◌≡◌, ◌≢◌, ◌⊎◌, refl, sym, ap, ◌∙◌, inl, inr, Bool, true, false, Option, none, some, List, [],
  ◌∷◌, All, In, ◌==◌, ==_iff, Bool-cases, some-eq, if◌then◌else◌,
}
use stow.Prelude.Table.{Table, find_row, list_table}
use stow.Prelude.Query.{found_of, IsFound, found_of-IsFound, found_of-In}

module _ {Row : Type 0} where
  -- What an update of the rows that pass makes of a read.
  abbrev pub changed_where : (Row → Bool) → (Row → Row) → Option Row → Option Row
  changed_where passes change none = none
  changed_where passes change (some r) = if passes r then some (change r) else some r

  -- What a deletion of the rows that pass makes of a read.
  abbrev pub kept_where : (Row → Bool) → Option Row → Option Row
  kept_where passes none = none
  kept_where passes (some r) = if passes r then none else some r

pub record RowTable (Row : Type 0) (key : Row → ℕ) : Type 1 where
  pub rows : Table Row key
  pub find_where : (Row → Bool) → rows.Store → Option Row
  pub update_where : (Row → Bool) → (Row → Row) → rows.Store → rows.Store
  pub delete_where : (Row → Bool) → rows.Store → rows.Store
  pub find_where-found :
      (p : Row → Bool) (s : rows.Store) (r : Row)
      → find_where p s ≡ some r
      → (p r ≡ true) × (rows.find_one (key r) s ≡ some r)
  pub find_where-none :
      (p : Row → Bool) (s : rows.Store) (r : Row)
      → find_where p s ≡ none
      → rows.find_one (key r) s ≡ some r
      → p r ≡ false
  pub find_one-update_where :
      (p : Row → Bool) (f : Row → Row) (k : ℕ) (s : rows.Store)
      → ((r : Row) → key (f r) ≡ key r)
      → rows.find_one k (update_where p f s) ≡ changed_where p f (rows.find_one k s)
  pub find_one-delete_where :
      (p : Row → Bool) (k : ℕ) (s : rows.Store)
      → rows.find_one k (delete_where p s) ≡ kept_where p (rows.find_one k s)

module _ {Row : Type 0} where
  -- A row that is read after an update was read before it, changed or not.
  pub changed_from :
      (p : Row → Bool) (f : Row → Row) (o : Option Row) (q : Row)
      → changed_where p f o ≡ some q
      → (r : Row) × (o ≡ some r) × (((p r ≡ true) × (q ≡ f r)) ⊎ ((p r ≡ false) × (q ≡ r)))
  changed_from p f none q e = absurd cc
  changed_from p f (some r) q e = elim (Bool-cases (p r)) [
    | inl pass ↦ (r, refl, inl (pass, sym (some-eq (rw pass at e))))
    | inr fails ↦ (r, refl, inr (fails, sym (some-eq (rw fails at e))))
  ]

  -- A row that is read after a deletion was read before it, and does not pass.
  pub kept_from :
      (p : Row → Bool) (o : Option Row) (q : Row)
      → kept_where p o ≡ some q
      → (o ≡ some q) × (p q ≡ false)
  kept_from p none q e = absurd cc
  kept_from p (some r) q e = elim (Bool-cases (p r)) [
    | inl pass ↦ let wrong : none ≡ some q = rw pass at e in absurd cc
    | inr fails ↦
        let same : r ≡ q = some-eq (rw fails at e) in (ap some same, ap p (sym same) ∙ fails)
  ]

  -- A row that is read after a save is the saved one, or was read before it.
  pub saved_from :
      {key : Row → ℕ} (t : Table Row key) (r q : Row) (s : t.Store)
      → t.find_one (key q) (t.save r s) ≡ some q
      → (q ≡ r) ⊎ ((key q ≢ key r) × (t.find_one (key q) s ≡ some q))
  saved_from {key} t r q s e =
      let read = sym (t.find_one-save (key q) r s) ∙ e in
      elim (Bool-cases (key q == key r)) [
        | inl same ↦ inl (sym (some-eq (rw same at read)))
        | inr other ↦ inr ((λ h. cc (other, (==_iff (key q) (key r)).1 h)), (rw other at read))
      ]

module _ {Row : Type 0} {key : Row → ℕ} (t : RowTable Row key) where
  -- A row that is found and passes, where no other does, is the answer.
  pub find_where_only :
      (p : Row → Bool) (r : Row) (s : t.rows.Store)
      → t.rows.find_one (key r) s ≡ some r
      → p r ≡ true
      → ((q : Row) → p q ≡ true → t.rows.find_one (key q) s ≡ some q → q ≡ r)
      → t.find_where p s ≡ some r
  find_where_only p r s found pass only = by_answer (t.find_where p s) refl
    where
      by_answer : (o : Option Row) → t.find_where p s ≡ o → o ≡ some r
      by_answer none e =
          let fails = t.find_where-none p s r e found in
          let wrong : true ≡ false = sym pass ∙ fails in absurd cc
      by_answer (some q) e =
          let (passes, there) = t.find_where-found p s q e in ap some (only q passes there)

-- The rows as a list: the interface can be met.
module _ {Row : Type 0} (key : Row → ℕ) where
  abbrev pub first : List Row → Option Row
  first [] = none
  first (r ∷ rs) = some r

  abbrev pub find_first : (Row → Bool) → List Row → Option Row
  find_first p s = first (found_of key p s s)

  abbrev pub change_if : (Row → Bool) → (Row → Row) → Row → Row
  change_if p f r = if p r then f r else r

  abbrev pub update_rows : (Row → Bool) → (Row → Row) → List Row → List Row
  update_rows p f [] = []
  update_rows p f (r ∷ rs) = change_if p f r ∷ update_rows p f rs

  abbrev pub is_gone : (Row → Bool) → Option Row → Bool
  is_gone p none = false
  is_gone p (some r) = p r

  -- Of the rows of a list, those whose key is not found with a row of `s` that passes.
  abbrev pub remaining : (Row → Bool) → List Row → List Row → List Row
  remaining p s [] = []
  remaining p s (x ∷ xs) =
      if is_gone p (find_row key (key x) s) then remaining p s xs else x ∷ remaining p s xs

  abbrev pub delete_rows : (Row → Bool) → List Row → List Row
  delete_rows p s = remaining p s s

  pub first-IsFound :
      (p : Row → Bool) (s rs : List Row) (r : Row)
      → All (IsFound key p s) rs
      → first rs ≡ some r
      → IsFound key p s r
  first-IsFound p s [] r h e = absurd cc
  first-IsFound p s (x ∷ xs) r h e = let same : x ≡ r = some-eq e in rw (← same) h.0

  first-none : (rs : List Row) (r : Row) → first rs ≡ none → In r rs → ⊥
  first-none [] r e h = h
  first-none (x ∷ xs) r e h = absurd cc

  pub find_first-none :
      (p : Row → Bool) (s : List Row) (r : Row)
      → find_first p s ≡ none
      → find_row key (key r) s ≡ some r
      → p r ≡ false
  find_first-none p s r e found = elim (Bool-cases (p r)) [
    | inl pass ↦ absurd (first-none (found_of key p s s) r e (found_of-In key p s r found pass))
    | inr fails ↦ fails
  ]

  change_if-key :
      (p : Row → Bool) (f : Row → Row) (r : Row)
      → ((r : Row) → key (f r) ≡ key r)
      → key (change_if p f r) ≡ key r
  change_if-key p f r keeps = elim (Bool-cases (p r)) [
    | inl pass ↦ rw pass (keeps r)
    | inr fails ↦ rw fails refl
  ]

  pub find_row-update_rows :
      (p : Row → Bool) (f : Row → Row) (k : ℕ) (s : List Row)
      → ((r : Row) → key (f r) ≡ key r)
      → find_row key k (update_rows p f s) ≡ changed_where p f (find_row key k s)
  find_row-update_rows p f k [] keeps = refl
  find_row-update_rows p f k (x ∷ xs) keeps =
      rw (change_if-key p f x keeps) (elim (Bool-cases (k == key x)) [
        | inl same ↦
            rw same
              (elim (Bool-cases (p x)) [ inl pass ↦ rw pass refl | inr fails ↦ rw fails refl ])
        | inr other ↦ rw other (find_row-update_rows p f k xs keeps)
      ])

  remaining_lem :
      (p : Row → Bool) (k : ℕ) (s xs : List Row)
      → find_row key k (remaining p s xs)
        ≡ (if is_gone p (find_row key k s) then none else find_row key k xs)
  remaining_lem p k s [] = elim (Bool-cases (is_gone p (find_row key k s))) [
    | inl gone ↦ rw gone refl
    | inr kept ↦ rw kept refl
  ]
  remaining_lem p k s (x ∷ xs) = elim (Bool-cases (k == key x)) [
    | inl same ↦
        let at : find_row key (key x) s ≡ find_row key k s =
          ap (λ i. find_row key i s) (sym ((==_iff k (key x)).0 same)) in
        elim (Bool-cases (is_gone p (find_row key k s))) [
          | inl gone ↦
              let here : is_gone p (find_row key (key x) s) ≡ true = ap (is_gone p) at ∙ gone in
              rw (here, gone) (remaining_lem p k s xs ∙ rw gone refl)
          | inr kept ↦
              let here : is_gone p (find_row key (key x) s) ≡ false = ap (is_gone p) at ∙ kept in
              rw (here, kept, same) refl
        ]
    | inr other ↦ elim (Bool-cases (is_gone p (find_row key (key x) s))) [
      | inl gone ↦ rw (gone, other) (remaining_lem p k s xs)
      | inr kept ↦ rw (kept, other) (remaining_lem p k s xs)
    ]
  ]

  pub find_row-delete_rows :
      (p : Row → Bool) (k : ℕ) (s : List Row)
      → find_row key k (delete_rows p s) ≡ kept_where p (find_row key k s)
  find_row-delete_rows p k s = remaining_lem p k s s ∙ by_read (find_row key k s)
    where
      by_read : (o : Option Row) → (if is_gone p o then none else o) ≡ kept_where p o
      by_read none = refl
      by_read (some r) = refl

  abbrev pub list_rows : RowTable Row key
  list_rows = record {
    rows = list_table key;
    find_where = find_first;
    update_where = update_rows;
    delete_where = delete_rows;
    find_where-found =
        λ p s r e. first-IsFound p s (found_of key p s s) r (found_of-IsFound key p s s) e;
    find_where-none = find_first-none;
    find_one-update_where = find_row-update_rows;
    find_one-delete_where = find_row-delete_rows;
  }
