-- ===== src/Referral.antt =====
-- backend/src/users/referral.service.ts: the attribution of a user to a referrer, and the rewards
-- that the first qualifying action of the user issues. The lists for display are left out; codes and
-- identifiers are numbers.
pub mod Anchor
pub mod Rewards
pub mod Calls
pub mod Late
mod Tests
use stow.Prelude.{
  ℕ, Bool, true, false, Option, none, some, List, [], ◌∷◌, length, select, ◌==◌, ◌&&◌,
  if◌then◌else◌,
}
use stow.Prelude.Rows.{RowTable}
use stow.Prelude.Result.{
  Result, ok, err, bad_request, not_found, conflict, Action, raise, raise_if, or_raise, pure, gets,
  modify, ◌>>=◌, ◌>>◌,
}
use stow.Auth.Sessions.{User, user_id_of}

-- user-referral.entity.ts
pub data ReferralStatus : Type 0 where
  pending qualified : ReferralStatus

pub record UserReferral : Type 0 where
  pub id : ℕ
  pub referrer_id : ℕ
  pub referred_id : ℕ
  pub status : ReferralStatus
  pub qualified_at : Option ℕ

abbrev pub referral_id_of : UserReferral → ℕ
referral_id_of r = r.id

abbrev pub is_pending : ReferralStatus → Bool
is_pending pending = true
is_pending qualified = false

-- referral-reward.entity.ts; what pays a reward out is no part of the service.
pub data RewardType : Type 0 where
  referrer_bonus referee_bonus : RewardType

pub data RewardStatus : Type 0 where
  waiting issued cancelled : RewardStatus

pub record ReferralReward : Type 0 where
  pub referral_id : ℕ
  pub recipient_id : ℕ
  pub type : RewardType
  pub amount : ℕ
  pub asset_code : ℕ
  pub status : RewardStatus

-- The configured reward, or nothing.
pub record ReferralConfig : Type 0 where
  pub reward_amount : Option ℕ
  pub reward_asset : Option ℕ

-- `DEFAULT_REWARD_AMOUNT` and `DEFAULT_ASSET_CODE`, where 0 stands for 'XLM'
abbrev pub or_default : ℕ → Option ℕ → ℕ
or_default d none = d
or_default d (some x) = x

pub record ReferralTables : Type 1 where
  pub users : RowTable User user_id_of
  pub referrals : RowTable UserReferral referral_id_of

pub record Referrals (t : ReferralTables) : Type 0 where
  pub users : t.users.rows.Store
  pub referrals : t.referrals.rows.Store
  pub rewards : List ReferralReward

module _ (c : ReferralConfig) (t : ReferralTables) where
  abbrev pub is_referred : ℕ → UserReferral → Bool
  is_referred user r = r.referred_id == user

  abbrev pub new_referral : ℕ → ℕ → ℕ → UserReferral
  new_referral fresh referrer user = record {
    id = fresh;
    referrer_id = referrer;
    referred_id = user;
    status = pending;
    qualified_at = none;
  }

  abbrev pub save_referral : UserReferral → Referrals t → Referrals t
  save_referral r s = record s { referrals = t.referrals.rows.save r s.referrals }

  -- Whether the user is attributed already.
  abbrev pub attributed : Option UserReferral → Bool
  attributed none = false
  attributed (some r) = true

  -- `claimReferral(userId, referralCode)`; `fresh` is the identifier of the new row.
  unfoldable pub claim_referral : ℕ → ℕ → ℕ → Action (Referrals t) UserReferral
  claim_referral user code fresh = do
    raise_if (code == user) bad_request
    referrer ← gets (λ (s : Referrals t). t.users.rows.find_one code s.users)
    or_raise referrer not_found
    existing ← gets (λ (s : Referrals t). t.referrals.find_where (is_referred user) s.referrals)
    raise_if (attributed existing) conflict
    modify (save_referral (new_referral fresh code user))
    pure (new_referral fresh code user)

  abbrev pub reward : UserReferral → ℕ → RewardType → ReferralReward
  reward r recipient type = record {
    referral_id = r.id;
    recipient_id = recipient;
    type = type;
    amount = or_default 1_000_000 c.reward_amount;
    asset_code = or_default 0 c.reward_asset;
    status = waiting;
  }

  -- The two rewards of a referral.
  abbrev pub rewards_for : UserReferral → List ReferralReward
  rewards_for r = reward r r.referrer_id referrer_bonus ∷ reward r r.referred_id referee_bonus ∷ []

  -- `issueRewards(referral)`
  abbrev pub issue_rewards : UserReferral → Referrals t → Referrals t
  issue_rewards r s = record s {
    rewards =
        reward r r.referrer_id referrer_bonus ∷ reward r r.referred_id referee_bonus ∷ s.rewards;
  }

  abbrev pub qualify : UserReferral → ℕ → UserReferral
  qualify r now = record r { status = qualified; qualified_at = some now }

  abbrev pub qualify_found : Option UserReferral → ℕ → Referrals t → Referrals t
  qualify_found none now s = s
  qualify_found (some r) now s = issue_rewards (qualify r now) (save_referral (qualify r now) s)

  abbrev pub is_pending_of : ℕ → UserReferral → Bool
  is_pending_of user r = r.referred_id == user && is_pending r.status

  -- `recordQualifyingAction(userId)`, at the time `now`
  unfoldable pub record_qualifying_action : ℕ → ℕ → Referrals t → Referrals t
  record_qualifying_action user now s =
      qualify_found (t.referrals.find_where (is_pending_of user) s.referrals) now s
