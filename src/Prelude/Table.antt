-- ===== src/Prelude/Table.antt =====
-- The object-relational mapper's repository (`Repository<Row>` of TypeORM), as far as the services
-- use it: a table of rows with one unique column, which is read and written by that column.
-- The mapper is no code of the repository, so its operations and laws are an interface.
use stow.Prelude.{
  ℕ, ◌≡◌, refl, Option, none, some, List, [], ◌∷◌, arith, ◌==◌, ==_iff, if◌then◌else◌,
}

pub record Table (Row : Type 0) (key : Row → ℕ) : Type 1 where
  pub Store : Type 0
  -- `findOne({ where: { <unique column>: k } })`
  pub find_one : ℕ → Store → Option Row
  -- `save(row)`: an update of the row with that value in its unique column, or an insert
  pub save : Row → Store → Store
  pub find_one-save :
      (k : ℕ) (r : Row) (s : Store)
      → find_one k (save r s) ≡ (if k == key r then some r else find_one k s)
  pub find_one-key : (k : ℕ) (s : Store) (r : Row) → find_one k s ≡ some r → key r ≡ k

-- What was saved is found.
pub find_one-save_self :
    {Row : Type 0} {key : Row → ℕ} (t : Table Row key) (k : ℕ) (r : Row) (s : t.Store)
    → key r ≡ k
    → t.find_one k (t.save r s) ≡ some r
find_one-save_self {key} t k r s e = rw (t.find_one-save k r s) (ground (arith, ==_iff k (key r)))

-- Saving a row again shows in no read.
pub find_one-save_again :
    {Row : Type 0} {key : Row → ℕ} (t : Table Row key) (k : ℕ) (r q : Row) (s : t.Store)
    → q ≡ r
    → t.find_one k (t.save q (t.save r s)) ≡ t.find_one k (t.save r s)
find_one-save_again {key} t k r q s e =
    rw e (ground (arith, t.find_one-save k r (t.save r s), t.find_one-save k r s))

-- A table as a list of rows: the interface can be met.
module _ {Row : Type 0} (key : Row → ℕ) where
  abbrev pub find_row : ℕ → List Row → Option Row
  find_row k [] = none
  find_row k (r ∷ rs) = if k == key r then some r else find_row k rs

  abbrev pub save_row : Row → List Row → List Row
  save_row r [] = r ∷ []
  save_row r (x ∷ xs) = if key r == key x then r ∷ xs else x ∷ save_row r xs

  pub find_row-save_row :
      (k : ℕ) (r : Row) (rs : List Row)
      → find_row k (save_row r rs) ≡ (if k == key r then some r else find_row k rs)
  find_row-save_row k r [] = refl
  find_row-save_row k r (x ∷ xs) = ground (arith, find_row-save_row k r xs)

  pub find_row-key : (k : ℕ) (rs : List Row) (r : Row) → find_row k rs ≡ some r → key r ≡ k
  find_row-key k [] r h = ground arith
  find_row-key k (x ∷ xs) r h = ground (arith, find_row-key k xs r)

  abbrev pub list_table : Table Row key
  list_table = record {
    Store = List Row;
    find_one = find_row;
    save = save_row;
    find_one-save = find_row-save_row;
    find_one-key = find_row-key;
  }
