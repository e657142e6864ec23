-- ===== src/ApiKeys/Tests.antt =====
-- Keys in a table that is a list, with a hash that tells only the length of a text.
use stow.Prelude.{
  ℕ, ◌≡◌, refl, sym, ap, ◌∙◌, Bool, true, false, none, some, List, [], ◌∷◌, All, length, arith,
  ◌==◌, ==_refl, some-eq, if◌then◌else◌, ◌&&◌,
}
use stow.Prelude.Table.{list_table, find_row}
use stow.Prelude.Query.{found_of, IsFound, found_of-IsFound, found_of-In}
use stow.Prelude.Result.{ok, err, unauthorized}
use stow.ApiKeys.{ApiKey, key_id, Bcrypt, KeyTable, is_expired, create, revoke, validate_key}
use stow.ApiKeys.Lifecycle.{create-validate_key}

abbrev length_bcrypt : Bcrypt
length_bcrypt = record {
  hash = λ salt raw. length raw;
  compare = λ raw h. length raw == h;
  compare-hash = λ salt raw. ==_refl (length raw);
}

abbrev same_text : List ℕ → List ℕ → Bool
same_text [] [] = true
same_text [] (_ ∷ _) = false
same_text (_ ∷ _) [] = false
same_text (c ∷ cs) (d ∷ ds) = let rest = same_text cs ds in c == d && rest

same_text_refl : (cs : List ℕ) → same_text cs cs ≡ true
same_text_refl [] = refl
same_text_refl (c ∷ cs) = rw (==_refl c, same_text_refl cs) refl

abbrev has_prefix : List ℕ → ApiKey → Bool
has_prefix p k = same_text k.key_prefix p

found_keys :
    (p : List ℕ) (s ks : List ApiKey)
    → All (IsFound key_id (has_prefix p) s) ks
    → All (λ k. find_row key_id k.id s ≡ some k) ks
found_keys p s [] h = tt
found_keys p s (k ∷ ks) h = (h.0.1, found_keys p s ks h.1)

abbrev key_table : KeyTable
key_table = record {
  rows = list_table key_id;
  find_prefix = λ p s. found_of key_id (has_prefix p) s s;
  find_prefix-found = λ p s.
      found_keys p s (found_of key_id (has_prefix p) s s)
        (found_of-IsFound key_id (has_prefix p) s s);
  find_prefix-complete = λ p s k found is.
      found_of-In key_id (has_prefix p) s k found (ap (λ q. same_text q p) is ∙ same_text_refl p);
}

-- A key of another length with the same prefix.
abbrev other_key : ApiKey
other_key = record {
  id = 1;
  user_id = 8;
  key_prefix = 105 ∷ 97 ∷ 95 ∷ 48 ∷ [];
  key_hash = 9;
  scopes = [];
  expires_at = none;
  revoked_at = none;
  last_used_at = none;
}

only_other :
    (k : ApiKey)
    → find_row key_id k.id (other_key ∷ []) ≡ some k
    → (4 == k.key_hash) ≡ true
    → k.id ≡ 2
only_other k found accepts =
    let there : k.key_hash ≡ 9 = by_id (k.id == 1) found in ground (arith, there, accepts)
  where
    by_id : (same : Bool) → (if same then some other_key else none) ≡ some k → k.key_hash ≡ 9
    by_id true h = ap (λ (x : ApiKey). x.key_hash) (sym (some-eq h))
    by_id false h = absurd cc

create-validate_key_example :
    let (done, s') =
      create length_bcrypt key_table 2 7 5 (48 ∷ []) [] (some 100) (other_key ∷ []) in
    (raw : List ℕ) × (k : ApiKey) × (done ≡ ok (raw, k))
    × (k.user_id ≡ 7)
    × ((now : ℕ)
        → is_expired (some 100) now ≡ false
        → validate_key length_bcrypt key_table raw now s' ≡ ok k)
    × ((at_time now : ℕ)
        → validate_key length_bcrypt key_table raw now
            (revoke length_bcrypt key_table 2 7 at_time s').1
          ≡ err unauthorized)
create-validate_key_example =
    create-validate_key length_bcrypt key_table 2 7 5 (48 ∷ []) [] (some 100) (other_key ∷ [])
      only_other
