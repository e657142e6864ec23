-- ===== src/Roundup/Service/Configs.antt =====
-- backend/src/savings-roundup/services/roundup.service.ts: the configurations of the round-ups.
use stow.Prelude.{ℕ, Bool, true, false, Option, none, some, ◌==◌, if◌then◌else◌}
use stow.Prelude.Int.{pos}
use stow.Prelude.Result.{ok, not_found, Action, or_raise, ◌>>=◌}
use stow.Amounts.{Amount, decimal}
use stow.Roundup.{RoundupMethod}
use stow.Roundup.Records.{RoundupFrequency, RoundupConfig, RoundupStores, RoundupState}

-- CreateRoundupConfigDto and UpdateRoundupConfigDto (dto/roundup-config.dto.ts), without the display
-- texts; the parameter is the text that `toString` makes of it.
pub record ConfigRequest : Type 0 where
  pub method : RoundupMethod
  pub method_parameter : Option Amount
  pub frequency : RoundupFrequency
  pub min_roundup_amount : Option ℕ
  pub max_roundup_per_transaction : Option ℕ

pub record ConfigUpdate : Type 0 where
  pub method : Option RoundupMethod
  pub method_parameter : Option Amount
  pub frequency : Option RoundupFrequency
  pub min_roundup_amount : Option ℕ
  pub max_roundup_per_transaction : Option ℕ
  pub is_active : Option Bool
  pub is_paused : Option Bool
  pub pause_reason : Option ℕ

-- `n || fallback`
abbrev pub or_limit : Option ℕ → ℕ → ℕ
or_limit none fallback = fallback
or_limit (some n) fallback = if n == 0 then fallback else n

abbrev pub limit_or : Option ℕ → Amount → Amount
limit_or none old = old
limit_or (some n) old = decimal (pos n)

abbrev pub given_or : {A : Type 0} → Option A → A → A
given_or none old = old
given_or (some a) old = a

abbrev pub replaced : {A : Type 0} → Option A → Option A → Option A
replaced none old = old
replaced (some a) old = some a

module _ (t : RoundupStores) where
  abbrev pub Service : Type 0 → Type 0
  Service A = Action (RoundupState t) A

  abbrev pub save_config : RoundupConfig → Service RoundupConfig
  save_config c s = (ok c, record s { configs = t.configs.save c s.configs })

  -- `getConfig(configId)`
  abbrev pub get_config : ℕ → Service RoundupConfig
  get_config id s = or_raise (t.configs.find_one id s.configs) not_found s

  -- `createConfig(userId, dto)`; a limit that is missing or 0 is the default.
  unfoldable pub create_config : ℕ → ℕ → ConfigRequest → Service RoundupConfig
  create_config fresh user dto = save_config (record {
    id = fresh;
    user_id = user;
    method = dto.method;
    method_parameter = dto.method_parameter;
    frequency = dto.frequency;
    min_roundup_amount = decimal (pos (or_limit dto.min_roundup_amount 1_000_000));
    max_roundup_per_transaction =
        decimal (pos (or_limit dto.max_roundup_per_transaction 100_000_000));
    is_active = true;
    is_paused = false;
    pause_reason = none;
  })

  -- `updateConfig(configId, dto)`
  unfoldable pub update_config : ℕ → ConfigUpdate → Service RoundupConfig
  update_config id dto = do
    config ← get_config id
    save_config (record config {
      method = given_or dto.method config.method;
      method_parameter = replaced dto.method_parameter config.method_parameter;
      frequency = given_or dto.frequency config.frequency;
      min_roundup_amount = limit_or dto.min_roundup_amount config.min_roundup_amount;
      max_roundup_per_transaction =
          limit_or dto.max_roundup_per_transaction config.max_roundup_per_transaction;
      is_active = given_or dto.is_active config.is_active;
      is_paused = given_or dto.is_paused config.is_paused;
      pause_reason = replaced dto.pause_reason config.pause_reason;
    })

  -- `pauseConfig` and `resumeConfig`
  unfoldable pub pause_config : ℕ → Option ℕ → Service RoundupConfig
  pause_config id reason = do
    config ← get_config id
    save_config (record config { is_paused = true; pause_reason = reason })

  unfoldable pub resume_config : ℕ → Service RoundupConfig
  resume_config id = do
    config ← get_config id
    save_config (record config { is_paused = false; pause_reason = none })
