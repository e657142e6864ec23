-- ===== src/Auth/Wallet/Locked.antt =====
-- backend/src/auth/auth.service.ts: a used challenge, and the sign-ins that follow it.
use stow.Prelude.{
  ℕ, ◌≤◌, ◌<◌, ◌≡◌, ◌≢◌, ◌⊎◌, refl, sym, ap, ◌∙◌, inl, inr, Bool, true, false, not, none, some,
  List, [], ◌∷◌, arith, ltb, ◌&&◌, Bool-cases, some-eq,
}
use stow.Auth.Entries.{
  Text, same_text, same_text_refl, same_text_eq, not_same, ends_with, find_entry, set_entry,
  change_entry, delete_entry, keep_entries, AreDistinct,
}
use stow.Auth.State.{ChallengeEntry, use_entry}
use stow.Auth.Wallet.{find_valid_challenge_for_address}

abbrev pub Challenges : Type 0
Challenges = List (Text × ChallengeEntry)

-- The first challenge that counts for an address from a time on, and that is used until another.
abbrev pub Blocks : Text → Text → ℕ → ℕ → Challenges → Type 0
Blocks address c from until [] = ⊥
Blocks address c from until ((k, e) ∷ m) =
    ((k ≡ c) × (e.used ≡ true) × (until ≤ e.expires_at))
    ⊎ ((k ≢ c)
        × ((ends_with (58 ∷ address) k ≡ false) ⊎ (e.expires_at < from))
        × Blocks address c from until m)

module _ (address c : Text) (from until : ℕ) where
  pub Blocks-finds :
      (later : ℕ) (m : Challenges)
      → ends_with (58 ∷ address) c ≡ true
      → from ≤ later
      → later ≤ until
      → Blocks address c from until m
      → (find_valid_challenge_for_address address later m ≡ some c)
        × ((e : ChallengeEntry) × (find_entry c m ≡ some e)
            × (e.used ≡ true)
            × (until ≤ e.expires_at))
  Blocks-finds later [] ends after before h = absurd h
  Blocks-finds later ((k, e) ∷ m) ends after before (inl (is, used, long)) =
      let here : ends_with (58 ∷ address) k ≡ true = ap (ends_with (58 ∷ address)) is ∙ ends in
      let young : ltb e.expires_at later ≡ false = ground arith in
      let same : same_text c k ≡ true = ap (same_text c) is ∙ same_text_refl c in
      (rw (here, young) (ap some is), (e, rw same refl, used, long))
  Blocks-finds later ((k, e) ∷ m) ends after before (inr (other, passed, rest)) =
      let (found, entry) = Blocks-finds later m ends after before rest in
      let differs : same_text c k ≡ false = not_same c k (λ h. other (sym h)) in
      let skipped : (ends_with (58 ∷ address) k && not (ltb e.expires_at later)) ≡ false =
        elim passed [
          | inl elsewhere ↦ rw elsewhere refl
          | inr over ↦
              let is : ltb e.expires_at later ≡ true = ground arith in
              rw is (and_false (ends_with (58 ∷ address) k))
        ] in
      (rw skipped found, rw differs entry)
    where
      and_false : (b : Bool) → (b && false) ≡ false
      and_false true = refl
      and_false false = refl

  pub set_entry-Blocks :
      (k : Text) (e : ChallengeEntry) (m : Challenges)
      → find_entry k m ≡ none
      → Blocks address c from until m
      → Blocks address c from until (set_entry k e m)
  set_entry-Blocks k e [] new h = absurd h
  set_entry-Blocks k e ((j, w) ∷ m) new h = elim (Bool-cases (same_text k j)) [
    | inl same ↦ let wrong : some w ≡ none = rw same at new in absurd cc
    | inr other ↦ rw other (elim h [
      | inl here ↦ inl here
      | inr (differs, passed, rest) ↦
          inr (differs, passed, set_entry-Blocks k e m (rw other at new) rest)
    ])
  ]

  pub use_entry-Blocks :
      (k : Text) (m : Challenges)
      → Blocks address c from until m
      → Blocks address c from until (change_entry use_entry k m)
  use_entry-Blocks k [] h = absurd h
  use_entry-Blocks k ((j, w) ∷ m) h = elim (Bool-cases (same_text k j)) [
    | inl same ↦ rw same (elim h [
      | inl (is, used, long) ↦ inl (is, refl, long)
      | inr (differs, passed, rest) ↦ inr (differs, passed, rest)
    ])
    | inr other ↦ rw other (elim h [
      | inl here ↦ inl here
      | inr (differs, passed, rest) ↦ inr (differs, passed, use_entry-Blocks k m rest)
    ])
  ]

  pub delete_entry-Blocks :
      (k : Text) (m : Challenges)
      → k ≢ c
      → Blocks address c from until m
      → Blocks address c from until (delete_entry k m)
  delete_entry-Blocks k [] away h = absurd h
  delete_entry-Blocks k ((j, w) ∷ m) away h = elim (Bool-cases (same_text k j)) [
    | inl same ↦ rw same (elim h [
      | inl (is, _, _) ↦ absurd (away (same_text_eq k j same ∙ is))
      | inr (_, _, rest) ↦ rest
    ])
    | inr other ↦ rw other (elim h [
      | inl here ↦ inl here
      | inr (differs, passed, rest) ↦ inr (differs, passed, delete_entry-Blocks k m away rest)
    ])
  ]

  pub keep_entries-Blocks :
      (now : ℕ) (m : Challenges)
      → now ≤ until
      → Blocks address c from until m
      → Blocks address c from until (keep_entries (λ e. not (ltb e.expires_at now)) m)
  keep_entries-Blocks now [] before h = absurd h
  keep_entries-Blocks now ((j, w) ∷ m) before (inl (is, used, long)) =
      let young : ltb w.expires_at now ≡ false = ground arith in rw young (inl (is, used, long))
  keep_entries-Blocks now ((j, w) ∷ m) before (inr (differs, passed, rest)) =
      elim (Bool-cases (ltb w.expires_at now)) [
        | inl over ↦ rw over (keep_entries-Blocks now m before rest)
        | inr young ↦ rw young (inr (differs, passed, keep_entries-Blocks now m before rest))
      ]

  find_valid-listed :
      (m : Challenges)
      → find_valid_challenge_for_address address from m ≡ some c
      → find_entry c m ≢ none
  find_valid-listed [] found missing = cc
  find_valid-listed ((k, w) ∷ m) found missing = elim (Bool-cases (same_text c k)) [
    | inl same ↦ let wrong : some w ≡ none = rw same at missing in cc
    | inr other ↦ elim (Bool-cases (ends_with (58 ∷ address) k && not (ltb w.expires_at from))) [
      | inl here ↦
          let is : k ≡ c = some-eq (rw here at found) in
          let same : same_text c k ≡ true = ap (same_text c) is ∙ same_text_refl c in cc
      | inr skipped ↦ find_valid-listed m (rw skipped at found) (rw other at missing)
    ]
  ]

  -- The same behind an entry that does not count.
  behind-Blocks :
      (k : Text) (w : ChallengeEntry) (m : Challenges)
      → k ≢ c
      → ((ends_with (58 ∷ address) k ≡ false) ⊎ (w.expires_at < from))
      → (ends_with (58 ∷ address) c ≡ true)
        × Blocks address c from until (change_entry use_entry c m)
      → (ends_with (58 ∷ address) c ≡ true)
        × Blocks address c from until (change_entry use_entry c ((k, w) ∷ m))
  behind-Blocks k w m other passed (ends, rest) =
      let differs : same_text c k ≡ false = not_same c k (λ h. other (sym h)) in
      (ends, rw differs (inr (other, passed, rest)))

  -- The challenge that was found and is now used, among distinct ones.
  pub found-Blocks :
      (e : ChallengeEntry) (m : Challenges)
      → AreDistinct m
      → find_valid_challenge_for_address address from m ≡ some c
      → find_entry c m ≡ some e
      → until ≤ e.expires_at
      → (ends_with (58 ∷ address) c ≡ true)
        × Blocks address c from until (change_entry use_entry c m)
  found-Blocks e [] distinct found entry long = absurd cc
  found-Blocks e ((k, w) ∷ m) distinct found entry long =
      let ih =
        λ (rest : find_valid_challenge_for_address address from m ≡ some c)
            (there : find_entry c m ≡ some e).
          found-Blocks e m distinct.1 rest there long in
      let other = λ (rest : find_valid_challenge_for_address address from m ≡ some c) (is : k ≡ c).
        find_valid-listed m rest (ap (λ j. find_entry j m) (sym is) ∙ distinct.0) in
      let there = λ (h : k ≢ c).
        (let differs : same_text c k ≡ false = not_same c k (λ is. h (sym is)) in
          let read : find_entry c m ≡ some e = rw differs at entry in read) in
      elim (Bool-cases (ends_with (58 ∷ address) k)) [
        | inl ends ↦ elim (Bool-cases (ltb w.expires_at from)) [
          | inl over ↦
              let rest : find_valid_challenge_for_address address from m ≡ some c =
                rw (ends, over) at found in
              behind-Blocks k w m (other rest) (inr (ground arith)) (ih rest (there (other rest)))
          | inr young ↦
              let is : k ≡ c = some-eq (rw (ends, young) at found) in
              let same : same_text c k ≡ true = ap (same_text c) is ∙ same_text_refl c in
              let entry' : w ≡ e = some-eq (rw same at entry) in
              (
                ap (ends_with (58 ∷ address)) (sym is) ∙ ends,
                rw same (inl (is, refl, rw entry' long)),
              )
        ]
        | inr elsewhere ↦
            let rest : find_valid_challenge_for_address address from m ≡ some c =
              rw elsewhere at found in
            behind-Blocks k w m (other rest) (inl elsewhere) (ih rest (there (other rest)))
      ]
