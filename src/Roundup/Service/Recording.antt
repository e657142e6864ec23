-- ===== src/Roundup/Service/Recording.antt =====
-- backend/src/savings-roundup/services/roundup.service.ts: the recording of a round-up.
use stow.Prelude.{ℕ, not, Option, none, some, ◌==◌, ◌||◌, if◌then◌else◌}
use stow.Prelude.Int.{ℤ, pos, ltb_ℤ, ◌==ℤ◌}
use stow.Prelude.Result.{Result, ok, err, bad_request, pure, raise_if, lift, ◌>>=◌, ◌>>◌}
use stow.Amounts.{decimal, big_int}
use stow.Balances
use stow.Balances.{Balance, BalanceState, BalanceView}
use stow.Roundup.{Numbers, calculate_roundup}
use stow.Roundup.Records.{
  RoundupFrequency, immediate, RoundupConfig, RecordStatus, TriggerSource, RoundupRecord,
  RoundupBatch, RoundupStores, RoundupState,
}
use stow.Roundup.Service.Configs.{Service, get_config}
use stow.Roundup.Service.{process_records_for_config}

module _ (t : RoundupStores) where
  abbrev pub save_record : RoundupRecord → Service t RoundupRecord
  save_record r s = (ok r, record s { records = t.records.rows.save r s.records })

  abbrev pub process_immediate :
      RoundupFrequency → Service t (Option RoundupBatch) → Service t (Unit {0})
  process_immediate immediate process = do process; pure tt
  process_immediate _ process = pure tt

  module _ (n : Numbers) where
    -- The rest of `recordRoundup` where the round-up is big enough.
    abbrev pub record_amount :
        ℕ
        → ℕ
        → ℕ
        → RoundupConfig
        → ℤ
        → TriggerSource
        → Option ℕ
        → ℤ
        → Service t (Option RoundupRecord)
    record_amount fresh fresh_batch now config amount trigger reference roundup = do
      saved ← save_record (record {
        id = fresh;
        user_id = config.user_id;
        config_id = config.id;
        status = RecordStatus.pending;
        trigger_source = trigger;
        roundup_amount = decimal roundup;
        original_amount = decimal amount;
        transaction_reference = reference;
        batch_id = none;
        deposit_ledger = none;
        error_message = none;
        processed_at = none;
      })
      process_immediate config.frequency (process_records_for_config t fresh_batch now config.id)
      pure (some saved)

    -- The rest where the configuration is in use.
    abbrev pub record_active :
        ℕ → ℕ → ℕ → RoundupConfig → ℤ → TriggerSource → Option ℕ → Service t (Option RoundupRecord)
    record_active fresh fresh_batch now config amount trigger reference = do
      cap ← lift (big_int config.max_roundup_per_transaction)
      roundup ← lift (calculate_roundup n amount config.method config.method_parameter (some cap))
      least ← lift (big_int config.min_roundup_amount)
      if ltb_ℤ roundup least
          then pure none
          else record_amount fresh fresh_batch now config amount trigger reference roundup

    -- `recordRoundup(userId, configId, amount, trigger, reference)`
    unfoldable pub record_roundup :
        ℕ → ℕ → ℕ → ℕ → ℕ → ℤ → TriggerSource → Option ℕ → Service t (Option RoundupRecord)
    unfolding process_records_for_config
    record_roundup fresh fresh_batch now user id amount trigger reference = do
      config ← get_config t id
      raise_if (not (config.user_id == user)) bad_request
      if config.is_paused || not config.is_active
          then pure none
          else record_active fresh fresh_batch now config amount trigger reference

    abbrev pub after_get :
        RoundupState t
        → Result BalanceView × BalanceState t.balances t.balance_cache
        → Result ℤ × RoundupState t
    after_get s (ok view, accounts) = (big_int view.amount, record s { accounts = accounts })
    after_get s (err e, accounts) = (err e, record s { accounts = accounts })

    abbrev pub balance_of : ℕ → Service t ℤ
    balance_of user s = after_get s (Balances.get t.balances t.balance_cache user s.accounts)

    -- The amount that `triggerExternalRoundup` rounds up: that given, unless it is missing or 0,
    -- else the user's balance.
    abbrev pub trigger_amount : Option ℤ → ℕ → Service t ℤ
    trigger_amount none user = balance_of user
    trigger_amount (some amount) user = if amount ==ℤ pos 0 then balance_of user else pure amount

    -- `triggerExternalRoundup(userId, configId, amount)`; the reference is made of the time.
    unfoldable pub trigger_external_roundup :
        ℕ → ℕ → ℕ → ℕ → ℕ → Option ℤ → ℕ → Service t (Option RoundupRecord)
    unfolding record_roundup
    trigger_external_roundup fresh fresh_batch now user id amount reference = do
      config ← get_config t id
      raise_if (not (config.user_id == user)) bad_request
      triggered ← trigger_amount amount config.user_id
      record_roundup fresh fresh_batch now user id triggered TriggerSource.external (some reference)
