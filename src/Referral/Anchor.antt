-- ===== src/Referral/Anchor.antt =====
-- backend/src/savings/anchor.service.ts, `initiateDeposit`: a deposit session with the anchor is
-- stored, and the first one of a user qualifies the user's referral. The anchor's answer is an
-- argument, and nothing where the request fails.
use stow.Prelude.{ℕ, Option, none, some, List, ◌∷◌, length, select, ◌==◌, if◌then◌else◌}
use stow.Prelude.Result.{ok, err, bad_gateway, Action}
use stow.Referral.{ReferralConfig, ReferralTables, Referrals, record_qualifying_action}

-- anchor-deposit.entity.ts
pub data AnchorDepositStatus : Type 0 where
  pending processing completed failed : AnchorDepositStatus

pub record AnchorDeposit : Type 0 where
  pub id : ℕ
  pub user_id : ℕ
  pub stellar_account : ℕ
  pub asset_code : ℕ
  pub transaction_id : ℕ
  pub interactive_url : ℕ
  pub status : AnchorDepositStatus

pub record InitiateDepositDto : Type 0 where
  pub asset_code : ℕ
  pub account : ℕ

pub record Sep24Response : Type 0 where
  pub id : ℕ
  pub url : ℕ

pub record AnchorState (t : ReferralTables) : Type 0 where
  pub deposits : List AnchorDeposit
  pub referrals : Referrals t

-- `count({ where: { user_id } })`
abbrev pub deposit_count : ℕ → List AnchorDeposit → ℕ
deposit_count user ds = length (select (λ (d : AnchorDeposit). d.user_id == user) ds)

module _ (c : ReferralConfig) (t : ReferralTables) where
  abbrev pub new_deposit : ℕ → ℕ → InitiateDepositDto → Sep24Response → AnchorDeposit
  new_deposit fresh user dto answer = record {
    id = fresh;
    user_id = user;
    stellar_account = dto.account;
    asset_code = dto.asset_code;
    transaction_id = answer.id;
    interactive_url = answer.url;
    status = pending;
  }

  abbrev pub save_deposit : AnchorDeposit → AnchorState t → AnchorState t
  save_deposit d s = record s { deposits = d ∷ s.deposits }

  -- The qualification on the first deposit.
  unfoldable pub qualify_first : ℕ → ℕ → AnchorState t → AnchorState t
  qualify_first user now s =
      if deposit_count user s.deposits == 1
      then record s { referrals = record_qualifying_action c t user now s.referrals }
      else s

  -- `initiateDeposit(userId, dto)`, at the time `now`; `fresh` is the identifier of the new row.
  unfoldable pub initiate_deposit :
      ℕ → InitiateDepositDto → Option Sep24Response → ℕ → ℕ → Action (AnchorState t) AnchorDeposit
  unfolding qualify_first
  initiate_deposit user dto none fresh now s = (err bad_gateway, s)
  initiate_deposit user dto (some answer) fresh now s =
      let d = new_deposit fresh user dto answer in (ok d, qualify_first user now (save_deposit d s))
