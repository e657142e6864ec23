-- ===== src/Filtering/Texts.antt =====
-- Texts as lists of ASCII codes, and what the filters do with them.
use stow.Prelude.{
  ℕ, ◌+◌, Bool, true, false, List, [], ◌∷◌, ◌++◌, leb, ◌==◌, ◌&&◌, ◌||◌, if◌then◌else◌,
}

abbrev pub Text : Type 0
Text = List ℕ

abbrev pub same_text : Text → Text → Bool
same_text [] [] = true
same_text [] (_ ∷ _) = false
same_text (_ ∷ _) [] = false
same_text (c ∷ cs) (d ∷ ds) = let rest = same_text cs ds in c == d && rest

abbrev pub is_empty : Text → Bool
is_empty [] = true
is_empty (_ ∷ _) = false

abbrev pub is_space : ℕ → Bool
is_space c = c == 32 || (leb 9 c && leb c 13)

abbrev pub trim_start : Text → Text
trim_start [] = []
trim_start (c ∷ cs) = let rest = trim_start cs in if is_space c then rest else c ∷ cs

-- The text without its last spaces.
abbrev pub trim_end : Text → Text
trim_end [] = []
trim_end (c ∷ cs) = if is_space c && is_empty (trim_end cs) then [] else c ∷ trim_end cs

-- `text.trim()`
abbrev pub trim : Text → Text
trim s = trim_start (trim_end s)

abbrev pub lower_code : ℕ → ℕ
lower_code c = if leb 65 c && leb c 90 then c + 32 else c

-- `text.toLowerCase()`
abbrev pub lower : Text → Text
lower [] = []
lower (c ∷ cs) = lower_code c ∷ lower cs

abbrev add_head : ℕ → List Text → List Text
add_head c [] = (c ∷ []) ∷ []
add_head c (p ∷ ps) = (c ∷ p) ∷ ps

-- `text.split(',')`
abbrev pub split : Text → List Text
split [] = [] ∷ []
split (c ∷ cs) = let rest = split cs in if c == 44 then [] ∷ rest else add_head c rest

abbrev pub not_blank : List Text → List Text
not_blank [] = []
not_blank (p ∷ ps) = if is_empty (trim p) then not_blank ps else trim p ∷ not_blank ps

-- `normalizeArray(value)`
abbrev pub parts : List Text → List Text
parts [] = []
parts (v ∷ vs) = not_blank (split v) ++ parts vs
