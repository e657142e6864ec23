-- ===== src/Referral/Late.antt =====
-- A referral that is claimed after the user's first deposit.
use stow.Prelude.{
  ℕ, suc, ◌≤◌, ◌≡◌, ◌≢◌, refl, sym, ap, ◌∙◌, inl, inr, Bool, true, false, none, some, List, [], ◌∷◌,
  arith, ◌==◌, ==_iff, ==_refl, ◌&&◌, Bool-cases, Option-cases,
}
use stow.Prelude.Rows.{saved_from}
use stow.Referral.{
  UserReferral, is_pending, ReferralConfig, ReferralTables, Referrals, is_referred, new_referral,
  save_referral, attributed, claim_referral, qualify, is_pending_of, record_qualifying_action,
}
use stow.Referral.Anchor.{
  InitiateDepositDto, Sep24Response, AnchorState, deposit_count, new_deposit, save_deposit,
  qualify_first, initiate_deposit,
}
use stow.Referral.Rewards.{IsStored}
use stow.Referral.Calls.{ReferralCall, claims, deposits, step, steps}

module _ (c : ReferralConfig) (t : ReferralTables) (user : ℕ) where
  -- Every stored referral of the user is pending.
  abbrev pub AllPending : Referrals t → Type 0
  AllPending s =
      (r : UserReferral) → IsStored c t r s → r.referred_id ≡ user → is_pending r.status ≡ true

  save_referral-AllPending :
      (n : UserReferral) (s : Referrals t)
      → (n.referred_id ≡ user → is_pending n.status ≡ true)
      → AllPending s
      → AllPending (save_referral c t n s)
  save_referral-AllPending n s new h q stored is =
      elim (saved_from t.referrals.rows n q s.referrals stored) [
        | inl same ↦
            ap (λ (x : UserReferral). is_pending x.status) same
            ∙ new (ap (λ (x : UserReferral). x.referred_id) (sym same) ∙ is)
        | inr (_, before) ↦ h q before is
      ]

  claim_referral-AllPending :
      (by code fresh : ℕ) (s : Referrals t)
      → AllPending s
      → AllPending (claim_referral c t by code fresh s).1
  unfolding claim_referral
  claim_referral-AllPending by code fresh s h = elim (Bool-cases (code == by)) [
    | inl self ↦ rw self h
    | inr other ↦ elim (Option-cases (t.users.rows.find_one code s.users)) [
      | inl missing ↦ rw (other, missing) h
      | inr (referrer, found) ↦
          elim (Bool-cases
            (attributed c t (t.referrals.find_where (is_referred c t by) s.referrals))) [
              | inl existing ↦ rw (other, found, existing) h
              | inr free ↦
                  rw (other, found, free)
                    (save_referral-AllPending (new_referral c t fresh code by) s (λ _. refl) h)
            ]
    ]
  ]

  and_left : (a b : Bool) → (a && b) ≡ true → a ≡ true
  and_left true b e = refl
  and_left false b e = e

  other-AllPending :
      (by now : ℕ) (s : Referrals t)
      → by ≢ user
      → AllPending s
      → AllPending (record_qualifying_action c t by now s)
  unfolding record_qualifying_action
  other-AllPending by now s other h =
      elim (Option-cases (t.referrals.find_where (is_pending_of c t by) s.referrals)) [
        | inl no_one ↦ rw no_one h
        | inr (r, found) ↦
            let (passes, _) =
              t.referrals.find_where-found (is_pending_of c t by) s.referrals r found in
            let of_other : r.referred_id ≡ by =
              (==_iff r.referred_id by).0
                (and_left (r.referred_id == by) (is_pending r.status) passes) in
            rw found (
              save_referral-AllPending (qualify c t r now) s
                (λ is. absurd (other (sym of_other ∙ is))) h)
      ]

  save_deposit-count :
      (by fresh : ℕ) (dto : InitiateDepositDto) (answer : Sep24Response) (s : AnchorState t)
      → 1 ≤ deposit_count user s.deposits
      → (1 ≤ deposit_count user (save_deposit c t (new_deposit c t fresh by dto answer) s).deposits)
        × (by ≡ user
            → (deposit_count by (save_deposit c t (new_deposit c t fresh by dto answer) s).deposits
                == 1)
              ≡ false)
  save_deposit-count by fresh dto answer s some_before = (
    elim (Bool-cases (by == user)) [
      | inl same ↦ rw same (omega arith)
      | inr other ↦ rw other some_before
    ],
    λ is.
        let more : 1 ≤ deposit_count by s.deposits = rw is some_before in
        rw (==_refl by) (not_one (deposit_count by s.deposits) more),
  )
    where
      not_one : (n : ℕ) → 1 ≤ n → (suc n == 1) ≡ false
      not_one n h = ground arith

  qualify_first-AllPending :
      (by now : ℕ) (s : AnchorState t)
      → (by ≡ user → (deposit_count by s.deposits == 1) ≡ false)
      → AllPending s.referrals
      → AllPending (qualify_first c t by now s).referrals
  unfolding qualify_first
  qualify_first-AllPending by now s not_first h =
      elim (Bool-cases (deposit_count by s.deposits == 1)) [
        | inr later ↦ rw later h
        | inl first ↦
            rw first (other-AllPending by now s.referrals (λ is. cc (not_first is, first)) h)
      ]

  qualify_first-deposits :
      (by now : ℕ) (s : AnchorState t) → (qualify_first c t by now s).deposits ≡ s.deposits
  unfolding qualify_first
  qualify_first-deposits by now s = elim (Bool-cases (deposit_count by s.deposits == 1)) [
    | inl first ↦ rw first refl
    | inr later ↦ rw later refl
  ]

  step-AllPending :
      (q : ReferralCall) (s : AnchorState t)
      → 1 ≤ deposit_count user s.deposits
      → AllPending s.referrals
      → (1 ≤ deposit_count user (step c t q s).deposits) × AllPending (step c t q s).referrals
  unfolding step initiate_deposit
  step-AllPending (claims by code fresh) s some_before h =
      (some_before, claim_referral-AllPending by code fresh s.referrals h)
  step-AllPending (deposits by dto none fresh now) s some_before h = (some_before, h)
  step-AllPending (deposits by dto (some answer) fresh now) s some_before h =
      let s' = save_deposit c t (new_deposit c t fresh by dto answer) s in
      let (more, not_first) = save_deposit-count by fresh dto answer s some_before in
      (rw (qualify_first-deposits by now s') more, qualify_first-AllPending by now s' not_first h)

  -- A user with a deposit, of whom no stored referral has qualified: whatever claims and deposits
  -- follow, the user's own included, no stored referral of the user ever qualifies.
  pub late_claim_never_qualifies :
      (qs : List ReferralCall) (s : AnchorState t)
      → 1 ≤ deposit_count user s.deposits
      → AllPending s.referrals
      → AllPending (steps c t qs s).referrals
  late_claim_never_qualifies [] s some_before h = h
  late_claim_never_qualifies (q ∷ qs) s some_before h =
      let (more, kept) = step-AllPending q s some_before h in
      late_claim_never_qualifies qs (step c t q s) more kept
