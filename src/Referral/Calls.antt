-- ===== src/Referral/Calls.antt =====
-- Sequences of claims and deposits.
use stow.Prelude.{ℕ, inl, inr, Option, none, some, List, [], ◌∷◌, ◌==◌, Bool-cases}
use stow.Referral.{ReferralConfig, ReferralTables, claim_referral}
use stow.Referral.Anchor.{
  InitiateDepositDto, Sep24Response, AnchorState, deposit_count, new_deposit, save_deposit,
  qualify_first, initiate_deposit,
}
use stow.Referral.Rewards.{
  IsConsistent, IsUnused, claim_referral-IsConsistent, record_qualifying_action-IsConsistent,
}

pub data ReferralCall : Type 0 where
  claims : ℕ → ℕ → ℕ → ReferralCall
  deposits : ℕ → InitiateDepositDto → Option Sep24Response → ℕ → ℕ → ReferralCall

module _ (c : ReferralConfig) (t : ReferralTables) where
  unfoldable pub step : ReferralCall → AnchorState t → AnchorState t
  step (claims user code fresh) s = record s {
    referrals = (claim_referral c t user code fresh s.referrals).1;
  }
  step (deposits user dto answer fresh now) s = (initiate_deposit c t user dto answer fresh now s).1

  abbrev pub steps : List ReferralCall → AnchorState t → AnchorState t
  steps [] s = s
  steps (q ∷ qs) s = steps qs (step q s)

  -- Each claim draws an identifier that is not in use.
  abbrev pub DrawsUnused : ReferralCall → AnchorState t → Type 0
  DrawsUnused (claims user code fresh) s = IsUnused c t fresh s.referrals
  DrawsUnused (deposits user dto answer fresh now) s = Unit {0}

  abbrev pub AllDrawUnused : List ReferralCall → AnchorState t → Type 0
  AllDrawUnused [] s = Unit {0}
  AllDrawUnused (q ∷ qs) s = DrawsUnused q s × AllDrawUnused qs (step q s)

  step-IsConsistent :
      (q : ReferralCall) (s : AnchorState t)
      → DrawsUnused q s
      → IsConsistent c t s.referrals
      → IsConsistent c t (step q s).referrals
  unfolding step initiate_deposit qualify_first
  step-IsConsistent (claims user code fresh) s unused h =
      claim_referral-IsConsistent c t user code fresh s.referrals unused h
  step-IsConsistent (deposits user dto none fresh now) s _ h = h
  step-IsConsistent (deposits user dto (some answer) fresh now) s _ h =
      let s' = save_deposit c t (new_deposit c t fresh user dto answer) s in
      elim (Bool-cases (deposit_count user s'.deposits == 1)) [
        | inl first ↦ rw first (record_qualifying_action-IsConsistent c t user now s.referrals h)
        | inr later ↦ rw later h
      ]

  -- Where every claim draws an identifier that is not in use: whatever claims and deposits follow
  -- one another, a user is referred by one stored referral at most, a referral that has qualified
  -- has its two rewards, each once, for the referrer and the referred user and of the configured
  -- amount, and one that is pending has none.
  pub steps-IsConsistent :
      (qs : List ReferralCall) (s : AnchorState t)
      → AllDrawUnused qs s
      → IsConsistent c t s.referrals
      → IsConsistent c t (steps qs s).referrals
  steps-IsConsistent [] s unused h = h
  steps-IsConsistent (q ∷ qs) s unused h =
      steps-IsConsistent qs (step q s) unused.1 (step-IsConsistent q s unused.0 h)
