-- ===== src/Auth/Entries.antt =====
-- `Map` with texts as keys: a list of entries in the order of their first insertion.
use stow.Prelude.{
  ℕ, ◌≡◌, ◌≢◌, refl, inl, inr, Bool, true, false, Option, none, some, List, [], ◌∷◌, ◌==◌, ==_iff,
  ==_refl, ◌&&◌, ◌||◌, Bool-cases, if◌then◌else◌,
}

abbrev pub Text : Type 0
Text = List ℕ

abbrev pub same_text : Text → Text → Bool
same_text [] [] = true
same_text [] (_ ∷ _) = false
same_text (_ ∷ _) [] = false
same_text (c ∷ cs) (d ∷ ds) = let rest = same_text cs ds in c == d && rest

pub same_text_refl : (a : Text) → same_text a a ≡ true
same_text_refl [] = refl
same_text_refl (c ∷ cs) = rw (==_refl c, same_text_refl cs) refl

pub same_text_eq : (a b : Text) → same_text a b ≡ true → a ≡ b
same_text_eq [] [] h = refl
same_text_eq [] (_ ∷ _) h = absurd cc
same_text_eq (_ ∷ _) [] h = absurd cc
same_text_eq (c ∷ cs) (d ∷ ds) h = elim (Bool-cases (c == d)) [
  | inl same ↦
      let rest : cs ≡ ds = same_text_eq cs ds (rw same at h) in
      let head : c ≡ d = (==_iff c d).0 same in cc
  | inr other ↦ let wrong : false ≡ true = rw other at h in absurd cc
]

-- Two different keys are compared.
pub not_same : (a b : Text) → a ≢ b → same_text a b ≡ false
not_same a b h = elim (Bool-cases (same_text a b)) [
  | inl same ↦ absurd (h (same_text_eq a b same))
  | inr other ↦ other
]

-- `text.endsWith(suffix)`
abbrev pub ends_with : Text → Text → Bool
ends_with suffix [] = same_text suffix []
ends_with suffix (c ∷ cs) = let rest = ends_with suffix cs in same_text suffix (c ∷ cs) || rest

module _ {V : Type 0} where
  abbrev pub find_entry : Text → List (Text × V) → Option V
  find_entry k [] = none
  find_entry k ((j, v) ∷ m) = if same_text k j then some v else find_entry k m

  -- `map.set(k, v)`
  abbrev pub set_entry : Text → V → List (Text × V) → List (Text × V)
  set_entry k v [] = (k, v) ∷ []
  set_entry k v ((j, w) ∷ m) = if same_text k j then (j, v) ∷ m else (j, w) ∷ set_entry k v m

  -- A write to the object that is stored under a key.
  abbrev pub change_entry : (V → V) → Text → List (Text × V) → List (Text × V)
  change_entry f k [] = []
  change_entry f k ((j, w) ∷ m) =
      if same_text k j then (j, f w) ∷ m else (j, w) ∷ change_entry f k m

  -- `map.delete(k)`
  abbrev pub delete_entry : Text → List (Text × V) → List (Text × V)
  delete_entry k [] = []
  delete_entry k ((j, w) ∷ m) = if same_text k j then m else (j, w) ∷ delete_entry k m

  -- A loop that deletes every entry which fails a test.
  abbrev pub keep_entries : (V → Bool) → List (Text × V) → List (Text × V)
  keep_entries p [] = []
  keep_entries p ((j, w) ∷ m) = if p w then (j, w) ∷ keep_entries p m else keep_entries p m

  -- The keys are distinct.
  abbrev pub AreDistinct : List (Text × V) → Type 0
  AreDistinct [] = Unit {0}
  AreDistinct ((j, w) ∷ m) = (find_entry j m ≡ none) × AreDistinct m
