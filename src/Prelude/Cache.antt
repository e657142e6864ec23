-- ===== src/Prelude/Cache.antt =====
-- The cache manager (`Cache` of cache-manager), as far as the services use it, between two expiries:
-- an entry is found after it was set and until it is deleted. The package is no code of the
-- repository, so its operations and laws are an interface.
use stow.Prelude.{ℕ, ◌≡◌, refl, Option, none, some, ◌==◌, if◌then◌else◌}

pub record Cache (View : Type 0) : Type 1 where
  pub Entries : Type 0
  pub get : ℕ → Entries → Option View
  pub set : ℕ → View → Entries → Entries
  pub del : ℕ → Entries → Entries
  pub get-set :
      (k j : ℕ) (v : View) (c : Entries) → get k (set j v c) ≡ (if k == j then some v else get k c)
  pub get-del : (k j : ℕ) (c : Entries) → get k (del j c) ≡ (if k == j then none else get k c)

-- A cache as a function: the interface can be met.
abbrev pub function_cache : (View : Type 0) → Cache View
function_cache View = record {
  Entries = ℕ → Option View;
  get = λ k c. c k;
  set = λ j v c k. if k == j then some v else c k;
  del = λ j c k. if k == j then none else c k;
  get-set = λ k j v c. refl;
  get-del = λ k j c. refl;
}
