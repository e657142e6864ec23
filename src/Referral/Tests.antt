-- ===== src/Referral/Tests.antt =====
-- A referred user with and without a deposit before the claim.
use stow.Prelude.{◌≡◌, refl, none, some, List, [], ◌∷◌, arith}
use stow.Prelude.Rows.{list_rows}
use stow.Auth.Sessions.{User, user_id_of}
use stow.Referral.{
  UserReferral, qualified, referral_id_of, ReferralConfig, ReferralTables, Referrals, rewards_for,
  claim_referral, record_qualifying_action,
}
use stow.Referral.Anchor.{AnchorDeposit, pending, AnchorState, qualify_first, initiate_deposit}
use stow.Referral.Rewards.{IsConsistent}
use stow.Referral.Calls.{ReferralCall, claims, deposits, step, steps, steps-IsConsistent}
use stow.Referral.Late.{AllPending, late_claim_never_qualifies}

abbrev default_config : ReferralConfig
default_config = record { reward_amount = none; reward_asset = none }

abbrev list_tables : ReferralTables
list_tables = record { users = list_rows user_id_of; referrals = list_rows referral_id_of }

abbrev referrer : User
referrer = record { id = 1; stellar_address = [] }

abbrev no_referrals : Referrals list_tables
no_referrals = record { users = referrer ∷ []; referrals = []; rewards = [] }

abbrev no_deposits : AnchorState list_tables
no_deposits = record { deposits = []; referrals = no_referrals }

abbrev first_deposit : AnchorDeposit
first_deposit = record {
  id = 3;
  user_id = 2;
  stellar_account = 8;
  asset_code = 0;
  transaction_id = 4;
  interactive_url = 0;
  status = pending;
}

abbrev one_deposit : AnchorState list_tables
one_deposit = record no_deposits { deposits = first_deposit ∷ [] }

abbrev claims_and_deposits : List ReferralCall
claims_and_deposits =
    claims 2 1 5
    ∷ deposits 2 (record { asset_code = 0; account = 8 }) (some (record { id = 6; url = 0 })) 7 100
    ∷ []

none-ne-some : {r : UserReferral} → ¬ (none ≡ some r)
none-ne-some e = cc

no_referrals-IsConsistent : IsConsistent default_config list_tables no_referrals
no_referrals-IsConsistent = record {
  attributed_once = λ r q stored _ _. absurd (none-ne-some stored);
  paid = λ r stored. absurd (none-ne-some stored);
}

steps-IsConsistent_example :
    IsConsistent default_config list_tables
      (steps default_config list_tables claims_and_deposits no_deposits).referrals
steps-IsConsistent_example =
    steps-IsConsistent default_config list_tables claims_and_deposits no_deposits
      (((λ r stored. absurd (none-ne-some stored)), refl), (tt, tt)) no_referrals-IsConsistent

-- With no deposit before it, the claim is paid for with the first deposit.
abbrev paid_referral : UserReferral
paid_referral = record {
  id = 5;
  referrer_id = 1;
  referred_id = 2;
  status = qualified;
  qualified_at = some 100;
}

first_deposit_pays :
    (steps default_config list_tables claims_and_deposits no_deposits).referrals.rewards
    ≡ rewards_for default_config list_tables paid_referral
unfolding step claim_referral initiate_deposit qualify_first record_qualifying_action
first_deposit_pays = refl

late_claim_never_qualifies_example :
    AllPending default_config list_tables 2
      (steps default_config list_tables claims_and_deposits one_deposit).referrals
late_claim_never_qualifies_example =
    late_claim_never_qualifies default_config list_tables 2 claims_and_deposits one_deposit
      (omega arith) (λ r stored _. absurd (none-ne-some stored))
