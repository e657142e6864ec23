-- ===== src/Referral/Rewards.antt =====
-- backend/src/users/referral.service.ts: the referral of a user and the rewards of a referral.
use stow.Prelude.{
  ℕ, ◌≡◌, ◌≢◌, refl, sym, ap, ◌∙◌, inl, inr, Bool, true, false, none, some, List, [], select, ◌==◌,
  ==_iff, ==_refl, ◌&&◌, Bool-cases, Option-cases, if◌then◌else◌,
}
use stow.Prelude.Rows.{saved_from}
use stow.Referral.{
  UserReferral, is_pending, ReferralReward, ReferralConfig, ReferralTables, Referrals, is_referred,
  new_referral, save_referral, claim_referral, rewards_for, issue_rewards, qualify, qualify_found,
  is_pending_of, record_qualifying_action,
}

module _ (c : ReferralConfig) (t : ReferralTables) where
  abbrev pub IsStored : UserReferral → Referrals t → Type 0
  IsStored r s = t.referrals.rows.find_one r.id s.referrals ≡ some r

  abbrev pub rewards_of : ℕ → List ReferralReward → List ReferralReward
  rewards_of i ws = select (λ (w : ReferralReward). w.referral_id == i) ws

  abbrev pub expected : UserReferral → List ReferralReward
  expected r = if is_pending r.status then [] else rewards_for c t r

  -- A user is referred by one stored referral at most, and the rewards of a stored referral are the
  -- two for it if it has qualified, and none before.
  pub record IsConsistent (s : Referrals t) : Type 0 where
    pub attributed_once :
        (r q : UserReferral)
        → IsStored r s
        → IsStored q s
        → r.referred_id ≡ q.referred_id
        → r.id ≡ q.id
    pub paid : (r : UserReferral) → IsStored r s → rewards_of r.id s.rewards ≡ expected r

  -- No stored referral and no reward has the identifier.
  abbrev pub IsUnused : ℕ → Referrals t → Type 0
  IsUnused i s = ((r : UserReferral) → IsStored r s → r.id ≢ i) × (rewards_of i s.rewards ≡ [])

  save_referral-IsConsistent :
      (fresh referrer user : ℕ) (s : Referrals t)
      → IsUnused fresh s
      → t.referrals.find_where (is_referred c t user) s.referrals ≡ none
      → IsConsistent s
      → IsConsistent (save_referral c t (new_referral c t fresh referrer user) s)
  save_referral-IsConsistent fresh referrer user s (unused, unpaid) free h = record {
    attributed_once = λ r q stored stored' same.
        elim (saved_from t.referrals.rows n r s.referrals stored) [
          | inl is ↦ elim (saved_from t.referrals.rows n q s.referrals stored') [
            | inl is' ↦ ap (λ (x : UserReferral). x.id) (is ∙ sym is')
            | inr (_, before) ↦
                absurd
                  (not_referred q before (sym same ∙ ap (λ (x : UserReferral). x.referred_id) is))
          ]
          | inr (_, before) ↦ elim (saved_from t.referrals.rows n q s.referrals stored') [
            | inl is' ↦
                absurd (not_referred r before (same ∙ ap (λ (x : UserReferral). x.referred_id) is'))
            | inr (_, before') ↦ h.attributed_once r q before before' same
          ]
        ];
    paid = λ r stored. elim (saved_from t.referrals.rows n r s.referrals stored) [
      | inl is ↦
          ap (λ (x : UserReferral). rewards_of x.id s.rewards) is ∙ unpaid ∙ ap expected (sym is)
      | inr (_, before) ↦ h.paid r before
    ];
  }
    where
      n : UserReferral
      n = new_referral c t fresh referrer user

      not_referred : (q : UserReferral) → IsStored q s → q.referred_id ≢ user
      not_referred q before same =
          let fails =
            t.referrals.find_where-none (is_referred c t user) s.referrals q free before in
          let wrong : true ≡ false = sym ((==_iff q.referred_id user).1 same) ∙ fails in absurd cc

  pub claim_referral-IsConsistent :
      (user code fresh : ℕ) (s : Referrals t)
      → IsUnused fresh s
      → IsConsistent s
      → IsConsistent (claim_referral c t user code fresh s).1
  unfolding claim_referral
  claim_referral-IsConsistent user code fresh s unused h = elim (Bool-cases (code == user)) [
    | inl self ↦ rw self h
    | inr other ↦ elim (Option-cases (t.users.rows.find_one code s.users)) [
      | inl missing ↦ rw (other, missing) h
      | inr (referrer, found) ↦
          elim (Option-cases (t.referrals.find_where (is_referred c t user) s.referrals)) [
            | inr (r, existing) ↦ rw (other, found, existing) h
            | inl free ↦
                rw (other, found, free) (save_referral-IsConsistent fresh code user s unused free h)
          ]
    ]
  ]

  -- The rewards after those of another referral were issued, or its own.
  other_rewards :
      (r : UserReferral) (i : ℕ) (s : Referrals t)
      → i ≢ r.id
      → rewards_of i (issue_rewards c t r s).rewards ≡ rewards_of i s.rewards
  other_rewards r i s other =
      let differs : (r.id == i) ≡ false = elim (Bool-cases (r.id == i)) [
        | inl same ↦ absurd (other (sym ((==_iff r.id i).0 same)))
        | inr not_same ↦ not_same
      ] in
      rw differs refl

  own_rewards :
      (r : UserReferral) (s : Referrals t)
      → rewards_of r.id s.rewards ≡ []
      → rewards_of r.id (issue_rewards c t r s).rewards ≡ rewards_for c t r
  own_rewards r s unpaid = rw (==_refl r.id, unpaid) refl

  and_right : (a b : Bool) → (a && b) ≡ true → b ≡ true
  and_right true b e = e
  and_right false b e = absurd cc

  qualify-IsConsistent :
      (user now : ℕ) (r : UserReferral) (s : Referrals t)
      → t.referrals.find_where (is_pending_of c t user) s.referrals ≡ some r
      → IsConsistent s
      → IsConsistent (qualify_found c t (some r) now s)
  qualify-IsConsistent user now r s found h =
      let (passes, there) =
        t.referrals.find_where-found (is_pending_of c t user) s.referrals r found in
      let waits = and_right (r.referred_id == user) (is_pending r.status) passes in
      let unpaid : rewards_of r.id s.rewards ≡ [] = h.paid r there ∙ rw waits refl in
      let r' = qualify c t r now in
      let before = λ (q : UserReferral) (stored : IsStored q (save_referral c t r' s)).
        read_before r now s there q stored in
      record {
        attributed_once = λ q p stored stored' same.
            let (q', was, id, referred) = before q stored in
            let (p', was', id', referred') = before p stored' in
            sym id ∙ h.attributed_once q' p' was was' (referred ∙ same ∙ sym referred') ∙ id';
        paid = λ q stored. elim (saved_from t.referrals.rows r' q s.referrals stored) [
          | inl is ↦
              ap
                (λ (x : UserReferral).
                  rewards_of x.id (issue_rewards c t r' (save_referral c t r' s)).rewards)
                is
              ∙ own_rewards r' (save_referral c t r' s) unpaid
              ∙ ap expected (sym is)
          | inr (other, old) ↦ other_rewards r' q.id (save_referral c t r' s) other ∙ h.paid q old
        ];
      }
    where
      read_before :
          (r : UserReferral) (now : ℕ) (s : Referrals t)
          → IsStored r s
          → (q : UserReferral) → IsStored q (save_referral c t (qualify c t r now) s)
          → (p : UserReferral) × IsStored p s × (p.id ≡ q.id) × (p.referred_id ≡ q.referred_id)
      read_before r now s there q stored =
          elim (saved_from t.referrals.rows (qualify c t r now) q s.referrals stored) [
            | inl is ↦ (
              r,
              there,
              ap (λ (x : UserReferral). x.id) (sym is),
              ap (λ (x : UserReferral). x.referred_id) (sym is),
            )
            | inr (_, old) ↦ (q, old, refl, refl)
          ]

  pub record_qualifying_action-IsConsistent :
      (user now : ℕ) (s : Referrals t)
      → IsConsistent s
      → IsConsistent (record_qualifying_action c t user now s)
  unfolding record_qualifying_action
  record_qualifying_action-IsConsistent user now s h =
      elim (Option-cases (t.referrals.find_where (is_pending_of c t user) s.referrals)) [
        | inl no_one ↦ rw no_one h
        | inr (r, found) ↦ rw found (qualify-IsConsistent user now r s found h)
      ]
