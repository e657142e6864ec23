-- ===== src/Roundup/Service.antt =====
-- backend/src/savings-roundup/services/roundup.service.ts: the configurations, and the round-ups
-- from their recording to their deposit. `now` is the time of a call; the identifiers of new rows,
-- which the database makes, are arguments. Logging and the lists for display are left out.
pub mod Configs
pub mod Recording
pub mod Updates
pub mod Deposits
pub mod Sample
mod Tests
use stow.Prelude.{
  ℕ, ◌+◌, Bool, true, false, not, Option, none, some, List, [], ◌∷◌, length, ◌==◌, ◌||◌, ◌&&◌,
  if◌then◌else◌,
}
use stow.Prelude.Int.{ℤ, pos, ◌+ℤ◌, ltb_ℤ, ◌==ℤ◌}
use stow.Prelude.Result.{
  Error, Result, ok, err, not_found, bad_request, Action, pure, raise, raise_if, lift, modify, gets,
  or_raise, ◌>>=◌, ◌>>◌,
}
use stow.Amounts.{Amount, decimal, big_int}
use stow.Balances
use stow.Balances.{Balance, BalanceState, BalanceView}
use stow.Roundup.{RoundupMethod, Numbers, calculate_roundup}
use stow.Roundup.Records.{
  RoundupFrequency, immediate, RoundupConfig, RecordStatus, TriggerSource, RoundupRecord,
  BatchStatus, RoundupBatch, RoundupStores, RoundupState,
}
use Configs.{Service, get_config}

-- `records.reduce((sum, r) => sum + BigInt(r.roundup_amount), z)`
abbrev pub total_from : ℤ → List RoundupRecord → Result ℤ
total_from z [] = ok z
total_from z (r ∷ rs) = elim (big_int r.roundup_amount) [
  | ok x ↦ total_from (z +ℤ x) rs
  | err e ↦ err e
]

module _ (t : RoundupStores) where
  -- `recordRepository.update(id, change)`, which changes a row that is there
  abbrev pub change_found :
      (RoundupRecord → RoundupRecord) → Option RoundupRecord → RoundupState t → RoundupState t
  change_found change none s = s
  change_found change (some r) s = record s { records = t.records.rows.save (change r) s.records }

  unfoldable pub update_record :
      (RoundupRecord → RoundupRecord) → ℕ → RoundupState t → RoundupState t
  update_record change id s = change_found change (t.records.rows.find_one id s.records) s

  -- `Promise.all(records.map(r => update(r.id, change)))`
  unfoldable pub update_all :
      (RoundupRecord → RoundupRecord) → List RoundupRecord → RoundupState t → RoundupState t
  unfolding update_record
  update_all change [] s = s
  update_all change (r ∷ rs) s = update_all change rs (update_record change r.id s)

  abbrev pub in_process : ℕ → RoundupRecord → RoundupRecord
  in_process batch r = record r { batch_id = some batch; status = RecordStatus.processing }

  abbrev pub deposited : ℕ → RoundupRecord → RoundupRecord
  deposited now r = record r {
    status = RecordStatus.completed;
    deposit_ledger = some 12_345;
    processed_at = some now;
  }

  abbrev pub not_deposited : ℕ → Error → RoundupRecord → RoundupRecord
  not_deposited now e r = record r {
    status = RecordStatus.failed;
    error_message = some e;
    processed_at = some now;
  }

  abbrev pub after_credit :
      RoundupState t
      → Result Balance × BalanceState t.balances t.balance_cache
      → Result (Unit {0}) × RoundupState t
  after_credit s (ok b, accounts) = (ok tt, record s { accounts = accounts })
  after_credit s (err e, accounts) = (err e, record s { accounts = accounts })

  -- `balanceService.credit(user, total.toString())`
  abbrev pub credit_user : ℕ → ℤ → Service t (Unit {0})
  credit_user user total s =
      after_credit s (Balances.credit t.balances t.balance_cache user (decimal total) s.accounts)

  -- `simulateDepositSuccess`, for records that begin with `first`
  unfoldable pub simulate_deposit_success :
      ℕ → RoundupRecord → List RoundupRecord → Service t (Unit {0})
  unfolding update_all
  simulate_deposit_success now first rs = do
    modify (update_all (deposited now) (first ∷ rs))
    total ← lift (total_from (pos 0) (first ∷ rs))
    credit_user first.user_id total

  abbrev pub save_batch : RoundupBatch → Service t RoundupBatch
  save_batch b s = (ok b, record s { batches = t.batches.save b s.batches })

  -- What `processBatch` does after the deposit, or after its exception.
  abbrev pub conclude :
      ℕ
      → List RoundupRecord
      → RoundupBatch
      → Result (Unit {0}) × RoundupState t
      → Result RoundupBatch × RoundupState t
  conclude now rs b (ok _, s) =
      save_batch
        (record b {
          status = BatchStatus.completed;
          processed_at = some now;
          successful_count = length rs;
        })
        s
  conclude now rs b (err e, s) =
      save_batch
        (record b { status = BatchStatus.failed; error_message = some e; processed_at = some now })
        (update_all (not_deposited now e) rs s)

  abbrev pub new_batch : ℕ → ℕ → List RoundupRecord → ℤ → RoundupBatch
  new_batch fresh now rs total = record {
    id = fresh;
    record_count = length rs;
    total_amount = decimal total;
    status = BatchStatus.processing;
    successful_count = 0;
    error_message = none;
    processing_started_at = some now;
    processed_at = none;
  }

  -- `processBatch(records, configId)`, for records that begin with `first`
  unfoldable pub process_batch :
      ℕ → ℕ → RoundupRecord → List RoundupRecord → ℕ → Service t RoundupBatch
  unfolding update_all simulate_deposit_success
  process_batch fresh now first rs config = do
    get_config t config
    total ← lift (total_from (pos 0) (first ∷ rs))
    saved ← save_batch (new_batch fresh now (first ∷ rs) total)
    modify (update_all (in_process saved.id) (first ∷ rs))
    λ s. conclude now (first ∷ rs) saved (simulate_deposit_success now first rs s)

  abbrev pub process_pending : ℕ → ℕ → ℕ → List RoundupRecord → Service t (Option RoundupBatch)
  process_pending fresh now config [] = pure none
  process_pending fresh now config (first ∷ rs) = do
    done ← process_batch fresh now first rs config
    pure (some done)

  -- `processRecordsForConfig(configId)`
  unfoldable pub process_records_for_config : ℕ → ℕ → ℕ → Service t (Option RoundupBatch)
  unfolding process_batch
  process_records_for_config fresh now config = do
    get_config t config
    found ← gets (λ s. t.records.find_pending config s.records)
    process_pending fresh now config found
