-- ===== src/Auth/Passkeys/Once.antt =====
-- backend/src/auth/auth.service.ts: a challenge of the sign-in with a passkey, and the calls that
-- follow its use.
use stow.Prelude.{
  ℕ, ◌≡◌, ◌≢◌, ◌⊎◌, refl, sym, ap, ◌∙◌, inl, inr, Bool, true, false, not, none, some, List, [], ◌∷◌,
  All, ltb, Bool-cases, Option-cases,
}
use stow.Prelude.Result.{Result, ok, err, unauthorized}
use stow.Auth.Entries.{
  Text, same_text, same_text_refl, same_text_eq, find_entry, set_entry, change_entry, keep_entries,
  AreDistinct,
}
use stow.Auth.Sessions.{User, SessionTokens, Drawn, AuthConfig, issue_refresh_token}
use stow.Auth.State.{
  ChallengeEntry, AccountTables, AuthState, new_entry, use_entry, cleanup_expired_challenges,
}
use stow.Auth.Passkeys.{
  PasskeyResponse, WebAuthn, extract_challenge, begin_passkey_authentication, is_pending,
  find_credential, find_user, session_of_owner, assert_credential, authenticate,
  finish_passkey_authentication, begin_passkey_registration, is_registering, attest_credential,
  register, finish_passkey_registration,
}

pub data PasskeyCall : Type 0 where
  begins : Text → ℕ → PasskeyCall
  finishes : PasskeyResponse → ℕ → Drawn → PasskeyCall
  begins_registration : ℕ → Text → ℕ → PasskeyCall
  finishes_registration : ℕ → PasskeyResponse → ℕ → PasskeyCall
  cleans : ℕ → PasskeyCall

-- No sign-in is begun with this challenge.
abbrev pub Avoids : Text → PasskeyCall → Type 0
Avoids ch (begins challenge now) = challenge ≢ ch
Avoids ch (finishes a now d) = Unit {0}
Avoids ch (begins_registration user challenge now) = Unit {0}
Avoids ch (finishes_registration user a now) = Unit {0}
Avoids ch (cleans now) = Unit {0}

-- Every entry of the challenge is used.
abbrev pub IsUsed : Text → List (Text × ChallengeEntry) → Type 0
IsUsed ch [] = Unit {0}
IsUsed ch ((k, e) ∷ m) = (k ≡ ch → e.used ≡ true) × IsUsed ch m

missing-IsUsed :
    (ch : Text) (m : List (Text × ChallengeEntry)) → find_entry ch m ≡ none → IsUsed ch m
missing-IsUsed ch [] missing = tt
missing-IsUsed ch ((k, e) ∷ m) missing = elim (Bool-cases (same_text ch k)) [
  | inl same ↦ let wrong : some e ≡ none = rw same at missing in absurd cc
  | inr other ↦ (
    (λ is.
        let same : true ≡ false = sym (same_text_refl ch) ∙ ap (same_text ch) (sym is) ∙ other in
        absurd cc),
    missing-IsUsed ch m (rw other at missing),
  )
]

marked-IsUsed :
    (ch : Text) (m : List (Text × ChallengeEntry))
    → AreDistinct m
    → IsUsed ch (change_entry use_entry ch m)
marked-IsUsed ch [] distinct = tt
marked-IsUsed ch ((k, e) ∷ m) distinct = elim (Bool-cases (same_text ch k)) [
  | inl same ↦
      let is = same_text_eq ch k same in
      rw same ((λ _. refl), missing-IsUsed ch m (ap (λ j. find_entry j m) is ∙ distinct.0))
  | inr other ↦ rw other (
    (λ is.
        let same : true ≡ false = sym (same_text_refl ch) ∙ ap (same_text ch) (sym is) ∙ other in
        absurd cc),
    marked-IsUsed ch m distinct.1,
  )
]

set_entry-IsUsed :
    (ch k : Text) (e : ChallengeEntry) (m : List (Text × ChallengeEntry))
    → k ≢ ch
    → IsUsed ch m
    → IsUsed ch (set_entry k e m)
set_entry-IsUsed ch k e [] away used = ((λ is. absurd (away is)), tt)
set_entry-IsUsed ch k e ((j, w) ∷ m) away used = elim (Bool-cases (same_text k j)) [
  | inl same ↦ rw same ((λ is. absurd (away (same_text_eq k j same ∙ is))), used.1)
  | inr other ↦ rw other (used.0, set_entry-IsUsed ch k e m away used.1)
]

change_entry-IsUsed :
    (ch k : Text) (m : List (Text × ChallengeEntry))
    → IsUsed ch m
    → IsUsed ch (change_entry use_entry k m)
change_entry-IsUsed ch k [] used = tt
change_entry-IsUsed ch k ((j, w) ∷ m) used = elim (Bool-cases (same_text k j)) [
  | inl same ↦ rw same ((λ _. refl), used.1)
  | inr other ↦ rw other (used.0, change_entry-IsUsed ch k m used.1)
]

keep_entries-IsUsed :
    (ch : Text) (p : ChallengeEntry → Bool) (m : List (Text × ChallengeEntry))
    → IsUsed ch m
    → IsUsed ch (keep_entries p m)
keep_entries-IsUsed ch p [] used = tt
keep_entries-IsUsed ch p ((j, w) ∷ m) used = elim (Bool-cases (p w)) [
  | inl kept ↦ rw kept (used.0, keep_entries-IsUsed ch p m used.1)
  | inr gone ↦ rw gone (keep_entries-IsUsed ch p m used.1)
]

find_used :
    (ch : Text) (now : ℕ) (m : List (Text × ChallengeEntry))
    → IsUsed ch m
    → is_pending (find_entry ch m) now ≡ false
find_used ch now [] used = refl
find_used ch now ((j, w) ∷ m) used = elim (Bool-cases (same_text ch j)) [
  | inl same ↦ rw same (rw (used.0 (sym (same_text_eq ch j same))) refl)
  | inr other ↦ rw other (find_used ch now m used.1)
]

module _ (v : WebAuthn) (c : AuthConfig) (t : AccountTables) where
  unfoldable pub step : PasskeyCall → AuthState t → AuthState t
  step (begins challenge now) s = begin_passkey_authentication v c t challenge now s
  step (finishes a now d) s = (finish_passkey_authentication v c t a now d s).1
  step (begins_registration user challenge now) s =
      begin_passkey_registration v c t user challenge now s
  step (finishes_registration user a now) s = (finish_passkey_registration v c t user a now s).1
  step (cleans now) s = cleanup_expired_challenges t now s

  abbrev pub steps : List PasskeyCall → AuthState t → AuthState t
  steps [] s = s
  steps (q ∷ qs) s = steps qs (step q s)

  session_of_owner-challenges :
      (owner now : ℕ) (d : Drawn) (s : AuthState t)
      → (session_of_owner v c t owner now d s).1.passkey_challenges ≡ s.passkey_challenges
  unfolding issue_refresh_token
  session_of_owner-challenges owner now d s = elim (Option-cases (find_user v c t owner s)) [
    | inl missing ↦ rw missing refl
    | inr (u, found) ↦ rw found refl
  ]

  -- A finished sign-in leaves the map, or marks its own challenge used; a success marks it.
  assert_credential-challenges :
      (a : PasskeyResponse) (ch : Text) (now : ℕ) (d : Drawn) (s : AuthState t)
      → let (r, s') = assert_credential v c t a ch now d s in
        ((r ≡ err unauthorized) × (s'.passkey_challenges ≡ s.passkey_challenges))
        ⊎ (s'.passkey_challenges ≡ change_entry use_entry ch s.passkey_challenges)
  unfolding assert_credential
  assert_credential-challenges a ch now d s = elim (Option-cases (find_credential v c t a.id s)) [
    | inl missing ↦ rw missing (inl (refl, refl))
    | inr (k, found) ↦ elim (Option-cases (v.verify_assertion a ch k)) [
      | inl wrong ↦ rw (found, wrong) (inl (refl, refl))
      | inr (counter, verified) ↦
          rw (found, verified) (inr (session_of_owner-challenges k.user_id now d _))
    ]
  ]

  authenticate-IsUsed :
      (ch : Text) (o : Result Text) (a : PasskeyResponse) (now : ℕ) (d : Drawn) (s : AuthState t)
      → IsUsed ch s.passkey_challenges
      → IsUsed ch (authenticate v c t o a now d s).1.passkey_challenges
  authenticate-IsUsed ch (err e) a now d s used = used
  authenticate-IsUsed ch (ok k) a now d s used =
      elim (Bool-cases (is_pending (find_entry k s.passkey_challenges) now)) [
        | inr over ↦ rw over used
        | inl pending ↦ rw pending (elim (assert_credential-challenges a k now d s) [
          | inl (_, same) ↦ rw same used
          | inr marked ↦ rw marked (change_entry-IsUsed ch k s.passkey_challenges used)
        ])
      ]

  attest_credential-challenges :
      (user : ℕ) (a : PasskeyResponse) (ch : Text) (s : AuthState t)
      → (attest_credential v c t user a ch s).1.passkey_challenges ≡ s.passkey_challenges
  unfolding attest_credential
  attest_credential-challenges user a ch s = elim (Option-cases (v.verify_attestation a ch)) [
    | inl wrong ↦ rw wrong refl
    | inr (info, verified) ↦ elim (Option-cases (find_credential v c t info.credential_id s)) [
      | inl free ↦ rw (verified, free) refl
      | inr (k, taken) ↦ rw (verified, taken) refl
    ]
  ]

  register-challenges :
      (o : Result Text) (user : ℕ) (a : PasskeyResponse) (now : ℕ) (s : AuthState t)
      → (register v c t o user a now s).1.passkey_challenges ≡ s.passkey_challenges
  register-challenges (err e) user a now s = refl
  register-challenges (ok ch) user a now s =
      elim (Bool-cases (is_registering v c t (find_entry ch s.registration_challenges) user now)) [
        | inr no_entry ↦ rw no_entry refl
        | inl pending ↦ rw pending (attest_credential-challenges user a ch s)
      ]

  step-IsUsed :
      (ch : Text) (q : PasskeyCall) (s : AuthState t)
      → Avoids ch q
      → IsUsed ch s.passkey_challenges
      → IsUsed ch (step q s).passkey_challenges
  unfolding step begin_passkey_authentication finish_passkey_authentication
      begin_passkey_registration finish_passkey_registration cleanup_expired_challenges
  step-IsUsed ch (begins challenge now) s away used =
      set_entry-IsUsed ch challenge (new_entry now) s.passkey_challenges away used
  step-IsUsed ch (finishes a now d) s _ used =
      authenticate-IsUsed ch (extract_challenge v c t a) a now d s used
  step-IsUsed ch (begins_registration user challenge now) s _ used = used
  step-IsUsed ch (finishes_registration user a now) s _ used =
      rw (register-challenges (extract_challenge v c t a) user a now s) used
  step-IsUsed ch (cleans now) s _ used =
      keep_entries-IsUsed ch (λ e. not (ltb e.expires_at now)) s.passkey_challenges used

  steps-IsUsed :
      (ch : Text) (qs : List PasskeyCall) (s : AuthState t)
      → All (Avoids ch) qs
      → IsUsed ch s.passkey_challenges
      → IsUsed ch (steps qs s).passkey_challenges
  steps-IsUsed ch [] s avoid used = used
  steps-IsUsed ch (q ∷ qs) s avoid used =
      steps-IsUsed ch qs (step q s) avoid.1 (step-IsUsed ch q s avoid.0 used)

  err-ne-ok :
      (x : SessionTokens × User)
      → ¬ (◌≡◌ {A = Result (SessionTokens × User)} (err unauthorized) (ok x))
  err-ne-ok x e = cc

  authenticated-IsUsed :
      (a : PasskeyResponse) (ch : Text) (now : ℕ) (d : Drawn) (x : SessionTokens × User)
      (s : AuthState t)
      → AreDistinct s.passkey_challenges
      → extract_challenge v c t a ≡ ok ch
      → (finish_passkey_authentication v c t a now d s).0 ≡ ok x
      → IsUsed ch (finish_passkey_authentication v c t a now d s).1.passkey_challenges
  unfolding finish_passkey_authentication
  authenticated-IsUsed a ch now d x s distinct holds done =
      elim (Bool-cases (is_pending (find_entry ch s.passkey_challenges) now)) [
        | inr over ↦ absurd (err-ne-ok x (rw (holds, over) at done))
        | inl pending ↦
            rw (holds, pending)
              (elim (assert_credential-challenges a ch now d s) [
                | inl (failed, _) ↦
                    absurd (err-ne-ok x (sym failed ∙ (rw (holds, pending) at done)))
                | inr marked ↦ rw marked (marked-IsUsed ch s.passkey_challenges distinct)
              ])
      ]

  -- Where the challenges of sign-ins are distinct: once a sign-in with a passkey has succeeded,
  -- every later one whose client data holds the same challenge throws and changes nothing, whatever
  -- the passkey and the proof, and whatever calls came between, as long as no sign-in was begun
  -- with that challenge anew.
  pub authenticated_once :
      (a a' : PasskeyResponse) (ch : Text) (now later : ℕ) (d d' : Drawn) (x : SessionTokens × User)
      (qs : List PasskeyCall) (s : AuthState t)
      → AreDistinct s.passkey_challenges
      → extract_challenge v c t a ≡ ok ch
      → extract_challenge v c t a' ≡ ok ch
      → (finish_passkey_authentication v c t a now d s).0 ≡ ok x
      → All (Avoids ch) qs
      → let since = steps qs (finish_passkey_authentication v c t a now d s).1 in
        finish_passkey_authentication v c t a' later d' since ≡ (err unauthorized, since)
  unfolding finish_passkey_authentication
  authenticated_once a a' ch now later d d' x qs s distinct holds holds' done avoid =
      let since = steps qs (finish_passkey_authentication v c t a now d s).1 in
      let used =
        steps-IsUsed ch qs (finish_passkey_authentication v c t a now d s).1 avoid
          (authenticated-IsUsed a ch now d x s distinct holds done) in
      rw (holds', find_used ch later since.passkey_challenges used) refl
