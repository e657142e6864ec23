-- ===== src/Events.antt =====
-- The contract events as the indexer and the listener hand them to the projections
-- (backend/src/savings-projection/savings-projection.service.ts, `apply(topic, data)`).
use stow.Prelude.{ℕ, ◌*◌, Option, none, some}
use stow.Amounts.{Amount, malformed, empty_text, undefined_text, null_text}

-- The topics that some handler names; any other text is `other_topic`.
pub data Topic : Type 0 where
  goal_created goal_contribution goal_reached locked_created deposit withdraw : Topic
  group_split_settled strategy_changed deposited harvested : Topic
  withdraw_claimed withdraw_requested withdraw_cancelled : Topic
  other_topic : ℕ → Topic

-- A property of the decoded payload: absent, `null`, or a value, given by what `String(value)` is.
pub data Field (A : Type 0) : Type 0 where
  undefined null : Field A
  value : A → Field A

-- `a ?? b`
abbrev pub or_else : {A : Type 0} → Field A → Field A → Field A
or_else (value a) f = value a
or_else undefined f = f
or_else null f = f

-- `String(f)`, of an identifier and of an amount
abbrev pub text : Field ℕ → ℕ
text undefined = undefined_text
text null = null_text
text (value a) = a

abbrev pub amount_text : Field Amount → Amount
amount_text undefined = malformed undefined_text
amount_text null = malformed null_text
amount_text (value a) = a

-- `Record<string, unknown>`: the properties that some handler reads. `name` is `none` unless it is
-- a string. Amounts arrive as strings, the form that the RPC's JSON gives to 128-bit integers;
-- `unlock_at` and the like are whole seconds.
pub record EventData : Type 0 where
  pub id : Field ℕ
  pub goal_id : Field ℕ
  pub plan_id : Field ℕ
  pub group_id : Field ℕ
  pub request_id : Field ℕ
  pub withdrawal_id : Field ℕ
  -- the spellings `withdrawalId` and `requestId`
  pub camel_withdrawal_id : Field ℕ
  pub camel_request_id : Field ℕ
  pub owner : Field ℕ
  pub user : Field ℕ
  pub account : Field ℕ
  pub name : Option ℕ
  pub amount : Field Amount
  pub target_amount : Field Amount
  pub new_balance : Field Amount
  pub shares : Field Amount
  pub position_shares : Field Amount
  pub total_shares : Field Amount
  pub total_assets : Field Amount
  pub delta : Field Amount
  pub fee : Field Amount
  pub unlock_at : Field ℕ
  pub claimable_at : Field ℕ
  pub timestamp : Field ℕ

-- `typeof data.name === 'string' ? data.name : ''`
abbrev pub name_or_empty : Option ℕ → ℕ
name_or_empty none = empty_text
name_or_empty (some n) = n

-- `toDate`: the milliseconds of `Number(value ?? 0)` seconds
abbrev pub to_date : Field ℕ → ℕ
to_date (value seconds) = seconds * 1000
to_date undefined = 0
to_date null = 0
