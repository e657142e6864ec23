-- ===== src/Roundup/Service/Tests.antt =====
-- Round-ups on concrete stores.
use stow.Prelude.{ℕ, ◌≡◌, refl, true, false, none, some, [], ◌∷◌, if◌then◌else◌, ◌==◌}
use stow.Prelude.Int.{pos, ◌+ℤ◌}
use stow.Prelude.Result.{ok}
use stow.Prelude.Table.{list_table}
use stow.Prelude.Cache.{function_cache}
use stow.Amounts.{decimal}
use stow.Balances.{BalanceView, account_of}
use stow.Balances.Ledger.{book_of}
use stow.Roundup.{RoundupMethod}
use stow.Roundup.Records.{
  RoundupFrequency, RoundupConfig, config_id, RecordStatus, TriggerSource, RoundupRecord,
  BatchStatus, RoundupBatch, batch_id, RoundupStores, RoundupState,
}
use stow.Roundup.Service.Sample.{list_records}
use stow.Roundup.Service.{process_records_for_config}
use stow.Roundup.Service.Deposits.{process_records_for_config_lem}

abbrev stores : RoundupStores
stores = record {
  configs = list_table config_id;
  records = list_records;
  batches = list_table batch_id;
  balances = list_table account_of;
  balance_cache = function_cache BalanceView;
}

abbrev daily : RoundupConfig
daily = record {
  id = 1;
  user_id = 7;
  method = RoundupMethod.nearest_dollar;
  method_parameter = none;
  frequency = RoundupFrequency.daily;
  min_roundup_amount = decimal (pos 0);
  max_roundup_per_transaction = decimal (pos 100);
  is_active = true;
  is_paused = false;
  pause_reason = none;
}

abbrev record_of : ℕ → RecordStatus → ℕ → RoundupRecord
record_of id status amount = record {
  id = id;
  user_id = 7;
  config_id = 1;
  status = status;
  trigger_source = TriggerSource.transaction;
  roundup_amount = decimal (pos amount);
  original_amount = decimal (pos 0);
  transaction_reference = none;
  batch_id = none;
  deposit_ledger = none;
  error_message = none;
  processed_at = none;
}

abbrev state : RoundupState stores
state = record {
  configs = daily ∷ [];
  records =
      record_of 1 RecordStatus.pending 30
      ∷ record_of 2 RecordStatus.completed 9
      ∷ record_of 3 RecordStatus.pending 12
      ∷ [];
  batches = [];
  accounts = record {
    rows = record { account = 7; amount = decimal (pos 50) } ∷ [];
    cached = λ _. none;
  };
}

process_records_for_config_lem_example :
    let (done, s') = process_records_for_config stores 9 5 1 state in
    ((b : RoundupBatch) × (done ≡ ok (some b))
      × (b.status ≡ BatchStatus.completed)
      × (b.total_amount ≡ decimal (pos 42)))
    × ((k : ℕ)
        → book_of stores.balances stores.balance_cache s'.accounts k ≡ (
            if k == 7
            then decimal (pos 50 +ℤ pos 42)
            else book_of stores.balances stores.balance_cache state.accounts k))
    × (stores.records.find_pending 1 s'.records ≡ [])
unfolding ◌+ℤ◌
process_records_for_config_lem_example =
    process_records_for_config_lem stores 9 5 1 state daily (record_of 1 RecordStatus.pending 30)
      (record_of 3 RecordStatus.pending 12 ∷ []) (pos 42) (pos 50) refl refl refl refl
