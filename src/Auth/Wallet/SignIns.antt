-- ===== src/Auth/Wallet/SignIns.antt =====
-- Sequences of calls of the sign-in with a wallet, and a second sign-in within the lifetime of the
-- challenge of the first.
use stow.Prelude.{
  ℕ, ◌≤◌, ◌≡◌, ◌≢◌, ◌⊎◌, refl, sym, ap, ◌∙◌, inl, inr, Bool, true, false, Option, none, some, List,
  [], ◌∷◌, arith, ltb, Bool-cases, some-eq,
}
use stow.Prelude.Result.{Result, ok, err, unauthorized, then_do}
use stow.Auth.Entries.{
  Text, same_text, same_text_refl, same_text_eq, ends_with, find_entry, change_entry, AreDistinct,
}
use stow.Auth.Sessions.{User, Drawn, AuthConfig, create_session}
use stow.Auth.State.{
  ChallengeEntry, AccountTables, AuthState, new_entry, use_entry, cleanup_expired_challenges,
}
use stow.Auth.Wallet.{
  challenge_text, find_valid_challenge_for_address, generate_challenge, remove_challenge,
  check_entry, is_valid_challenge, sign_in_user, verify_entry, verify_found,
  verify_signature_with_status, start_session, verify_challenge,
}
use stow.Auth.Wallet.Locked.{
  Blocks, Blocks-finds, set_entry-Blocks, use_entry-Blocks, delete_entry-Blocks,
  keep_entries-Blocks, found-Blocks,
}

pub data WalletCall : Type 0 where
  generates : ℕ → Text → Text → WalletCall
  checks : Text → ℕ → WalletCall
  removes : Text → WalletCall
  verifies : Text → Text → ℕ → ℕ → Drawn → WalletCall
  cleans : ℕ → WalletCall

module _ (c : AuthConfig) (t : AccountTables) (verify_signature : Text → Text → Text → Bool) where
  unfoldable pub step : WalletCall → AuthState t → AuthState t
  step (generates now random address) s =
      (generate_challenge c t verify_signature now random address s).1
  step (checks challenge now) s = (is_valid_challenge c t verify_signature challenge now s).1
  step (removes challenge) s = remove_challenge c t verify_signature challenge s
  step (verifies address signed now fresh d) s =
      (verify_challenge c t verify_signature address signed now fresh d s).1
  step (cleans now) s = cleanup_expired_challenges t now s

  abbrev pub steps : List WalletCall → AuthState t → AuthState t
  steps [] s = s
  steps (q ∷ qs) s = steps qs (step q s)

  -- A new challenge is not in the map, this challenge is not removed, and its end is not passed by
  -- what deletes the entries that have expired.
  abbrev pub Spares : Text → ℕ → WalletCall → AuthState t → Type 0
  Spares ch until (generates now random address) s =
      find_entry (challenge_text now random address) s.challenges ≡ none
  Spares ch until (checks k now) s = now ≤ until
  Spares ch until (removes k) s = k ≢ ch
  Spares ch until (verifies address signed now fresh d) s = Unit {0}
  Spares ch until (cleans now) s = now ≤ until

  abbrev pub AllSpare : Text → ℕ → List WalletCall → AuthState t → Type 0
  AllSpare ch until [] s = Unit {0}
  AllSpare ch until (q ∷ qs) s = Spares ch until q s × AllSpare ch until qs (step q s)

  -- A verification leaves the map as it is, or marks one challenge used.
  verify_entry-challenges :
      (o : Option ChallengeEntry) (k address signed : Text) (fresh : ℕ) (s : AuthState t)
      → let s' = (verify_entry c t verify_signature o k address signed fresh s).1 in
        (s'.challenges ≡ s.challenges) ⊎ (s'.challenges ≡ change_entry use_entry k s.challenges)
  unfolding sign_in_user
  verify_entry-challenges none k address signed fresh s = inl refl
  verify_entry-challenges (some e) k address signed fresh s = elim (Bool-cases e.used) [
    | inl used ↦ rw used (inl refl)
    | inr unused ↦ elim (Bool-cases (verify_signature address k signed)) [
      | inl right ↦ rw (unused, right) (inr (ground arith))
      | inr wrong ↦ rw (unused, wrong) (inl refl)
    ]
  ]

  status-challenges :
      (address signed : Text) (now fresh : ℕ) (s : AuthState t)
      → let s' = (verify_signature_with_status c t verify_signature address signed now fresh s).1 in
        (s'.challenges ≡ s.challenges)
        ⊎ ((k : Text) × (s'.challenges ≡ change_entry use_entry k s.challenges))
  unfolding verify_signature_with_status
  status-challenges address signed now fresh s =
      by_challenge (find_valid_challenge_for_address address now s.challenges)
    where
      by_challenge :
          (o : Option Text)
          → let s' = (verify_found c t verify_signature o address signed fresh s).1 in
            (s'.challenges ≡ s.challenges)
            ⊎ ((k : Text) × (s'.challenges ≡ change_entry use_entry k s.challenges))
      by_challenge none = inl refl
      by_challenge (some k) =
          elim (verify_entry-challenges (find_entry k s.challenges) k address signed fresh s) [
            | inl same ↦ inl same
            | inr marked ↦ inr (k, marked)
          ]

  -- The session that is started leaves the maps of challenges.
  verify_challenge-state :
      (address signed : Text) (now fresh : ℕ) (d : Drawn) (s : AuthState t)
      → (verify_challenge c t verify_signature address signed now fresh d s).1.challenges
        ≡ (verify_signature_with_status c t verify_signature address signed now fresh
            s).1.challenges
  unfolding verify_challenge create_session
  verify_challenge-state address signed now fresh d s =
      by_result (verify_signature_with_status c t verify_signature address signed now fresh s)
    where
      by_result :
          (p : Result (User × Bool) × AuthState t)
          → (then_do (start_session c t verify_signature now d) p).1.challenges ≡ p.1.challenges
      by_result (err e, s') = refl
      by_result (ok found, s') = refl

  module _ (address ch : Text) (from until : ℕ) where
    verify_challenge-Blocks :
        (by signed : Text) (now fresh : ℕ) (d : Drawn) (s : AuthState t)
        → Blocks address ch from until s.challenges
        → Blocks address ch from until
            (verify_challenge c t verify_signature by signed now fresh d s).1.challenges
    verify_challenge-Blocks by signed now fresh d s h =
        rw (verify_challenge-state by signed now fresh d s)
          (elim (status-challenges by signed now fresh s) [
            | inl same ↦ rw same h
            | inr (k, marked) ↦ rw marked (use_entry-Blocks address ch from until k s.challenges h)
          ])

    check-Blocks :
        (k : Text) (now : ℕ) (s : AuthState t) (o : Option ChallengeEntry)
        → find_entry k s.challenges ≡ o
        → (k ≢ ch) ⊎ ((e : ChallengeEntry) × (o ≡ some e) × (until ≤ e.expires_at))
        → now ≤ until
        → Blocks address ch from until s.challenges
        → Blocks address ch from until (check_entry c t verify_signature o k now s).1.challenges
    check-Blocks k now s none found which young h = h
    check-Blocks k now s (some e) found which young h = elim (Bool-cases (ltb e.expires_at now)) [
      | inr current ↦ rw current h
      | inl over ↦ rw over (elim which [
        | inl other ↦ delete_entry-Blocks address ch from until k s.challenges other h
        | inr (e', is, long) ↦
            let same : e ≡ e' = some-eq is in
            let late : until ≤ e.expires_at = rw same long in absurd (ground arith)
      ])
    ]

    -- A key that is looked up is another one, or its entry lasts.
    which_entry :
        (k : Text) (s : AuthState t)
        → ends_with (58 ∷ address) ch ≡ true
        → from ≤ until
        → Blocks address ch from until s.challenges
        → (k ≢ ch)
          ⊎ ((e : ChallengeEntry) × (find_entry k s.challenges ≡ some e) × (until ≤ e.expires_at))
    which_entry k s ends span h = elim (Bool-cases (same_text k ch)) [
      | inl same ↦
          let is = same_text_eq k ch same in
          let (_, (e, found, _, long)) =
            Blocks-finds address ch from until from s.challenges ends (omega arith) span h in
          inr (e, ap (λ j. find_entry j s.challenges) is ∙ found, long)
      | inr other ↦ inl (λ is. not_other is other)
    ]
      where
        not_other : k ≡ ch → ¬ (same_text k ch ≡ false)
        not_other is other =
            let wrong : true ≡ false =
              sym (ap (λ j. same_text j ch) is ∙ same_text_refl ch) ∙ other in
            cc

    step-Blocks :
        (q : WalletCall) (s : AuthState t)
        → ends_with (58 ∷ address) ch ≡ true
        → from ≤ until
        → Spares ch until q s
        → Blocks address ch from until s.challenges
        → Blocks address ch from until (step q s).challenges
    unfolding step generate_challenge is_valid_challenge remove_challenge cleanup_expired_challenges
    step-Blocks (generates now random by) s ends span new h =
        set_entry-Blocks address ch from until (challenge_text now random by) (new_entry now)
          s.challenges new h
    step-Blocks (checks k now) s ends span young h =
        check-Blocks k now s (find_entry k s.challenges) refl (which_entry k s ends span h) young h
    step-Blocks (removes k) s ends span other h =
        delete_entry-Blocks address ch from until k s.challenges other h
    step-Blocks (verifies by signed now fresh d) s ends span _ h =
        verify_challenge-Blocks by signed now fresh d s h
    step-Blocks (cleans now) s ends span young h =
        keep_entries-Blocks address ch from until now s.challenges young h

    steps-Blocks :
        (qs : List WalletCall) (s : AuthState t)
        → ends_with (58 ∷ address) ch ≡ true
        → from ≤ until
        → AllSpare ch until qs s
        → Blocks address ch from until s.challenges
        → Blocks address ch from until (steps qs s).challenges
    steps-Blocks [] s ends span spare h = h
    steps-Blocks (q ∷ qs) s ends span spare h =
        steps-Blocks qs (step q s) ends span spare.1 (step-Blocks q s ends span spare.0 h)

    refused :
        (signed : Text) (later fresh : ℕ) (s : AuthState t)
        → ends_with (58 ∷ address) ch ≡ true
        → from ≤ later
        → later ≤ until
        → Blocks address ch from until s.challenges
        → verify_signature_with_status c t verify_signature address signed later fresh s
          ≡ (err unauthorized, s)
    unfolding verify_signature_with_status
    refused signed later fresh s ends after before h =
        let (found, (e, entry, used, _)) =
          Blocks-finds address ch from until later s.challenges ends after before h in
        rw found (rw entry (rw used refl))

  -- What a verification that succeeds has done to the map.
  verified-challenges :
      (address signed ch : Text) (now fresh : ℕ) (e : ChallengeEntry) (u : User × Bool)
      (s : AuthState t)
      → find_valid_challenge_for_address address now s.challenges ≡ some ch
      → find_entry ch s.challenges ≡ some e
      → (verify_signature_with_status c t verify_signature address signed now fresh s).0 ≡ ok u
      → (verify_signature_with_status c t verify_signature address signed now fresh s).1.challenges
        ≡ change_entry use_entry ch s.challenges
  unfolding verify_signature_with_status sign_in_user
  verified-challenges address signed ch now fresh e u s found entry done =
      elim (Bool-cases e.used) [
        | inl used ↦ absurd (err-ne-ok (rw (found, entry, used) at done))
        | inr unused ↦ elim (Bool-cases (verify_signature address ch signed)) [
          | inl right ↦ rw (found, entry, unused, right) (ground arith)
          | inr wrong ↦ absurd (err-ne-ok (rw (found, entry, unused, wrong) at done))
        ]
      ]
    where
      err-ne-ok : ¬ (◌≡◌ {A = Result (User × Bool)} (err unauthorized) (ok u))
      err-ne-ok x = cc

  -- Where the challenges in the map are distinct: once a signature over a challenge has signed an
  -- address in, then, up to the time at which that challenge expires, no signature signs the
  -- address in again: every verification throws and changes nothing, whatever calls came between,
  -- new challenges for the same address included, as long as each of them was not in the map yet,
  -- nothing removed the used challenge, and no clean-up ran after that time.
  pub second_sign_in_refused :
      (address signed signed' ch : Text) (now later fresh fresh' : ℕ) (d : Drawn)
      (e : ChallengeEntry) (u : User × Bool) (qs : List WalletCall) (s : AuthState t)
      → AreDistinct s.challenges
      → find_valid_challenge_for_address address now s.challenges ≡ some ch
      → find_entry ch s.challenges ≡ some e
      → (verify_signature_with_status c t verify_signature address signed now fresh s).0 ≡ ok u
      → AllSpare ch e.expires_at qs
          (verify_challenge c t verify_signature address signed now fresh d s).1
      → now ≤ later
      → later ≤ e.expires_at
      → let since =
          steps qs (verify_challenge c t verify_signature address signed now fresh d s).1 in
        verify_challenge c t verify_signature address signed' later fresh' d since
        ≡ (err unauthorized, since)
  unfolding verify_challenge
  second_sign_in_refused address signed signed' ch now later fresh fresh' d e u qs s distinct found
        entry done spare after before =
      let s' = (verify_challenge c t verify_signature address signed now fresh d s).1 in
      let (ends, blocks) =
        found-Blocks address ch now e.expires_at e s.challenges distinct found entry
          (omega arith) in
      let marked =
        verify_challenge-state address signed now fresh d s
        ∙ verified-challenges address signed ch now fresh e u s found entry done in
      let blocked : Blocks address ch now e.expires_at s'.challenges = rw marked blocks in
      let since = steps qs s' in
      let kept = steps-Blocks address ch now e.expires_at qs s' ends (omega arith) spare blocked in
      let no =
        refused address ch now e.expires_at signed' later fresh' since ends after before kept in
      rw no refl
