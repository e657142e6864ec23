-- ===== src/Roundup/Records.antt =====
-- The rows of the round-ups (backend/src/savings-roundup/entities/), without display texts and the
-- columns that the database fills in, and their tables.
use stow.Prelude.{In, ℕ, ◌≡◌, Bool, Option, some, List, All}
use stow.Prelude.Table.{Table}
use stow.Prelude.Cache.{Cache}
use stow.Prelude.Result.{Error}
use stow.Amounts.{Amount}
use stow.Balances.{BalanceTable, BalanceView, BalanceState}
use stow.Roundup.{RoundupMethod}

pub data RoundupFrequency : Type 0 where
  immediate daily weekly monthly batch : RoundupFrequency

-- roundup-config.entity.ts; the two limits and the parameter are texts.
pub record RoundupConfig : Type 0 where
  pub id : ℕ
  pub user_id : ℕ
  pub method : RoundupMethod
  pub method_parameter : Option Amount
  pub frequency : RoundupFrequency
  pub min_roundup_amount : Amount
  pub max_roundup_per_transaction : Amount
  pub is_active : Bool
  pub is_paused : Bool
  pub pause_reason : Option ℕ

pub data RecordStatus : Type 0 where
  pending processing completed failed cancelled : RecordStatus

pub data TriggerSource : Type 0 where
  transaction external webhook api scheduled : TriggerSource

-- roundup-record.entity.ts
pub record RoundupRecord : Type 0 where
  pub id : ℕ
  pub user_id : ℕ
  pub config_id : ℕ
  pub status : RecordStatus
  pub trigger_source : TriggerSource
  pub roundup_amount : Amount
  pub original_amount : Amount
  pub transaction_reference : Option ℕ
  pub batch_id : Option ℕ
  pub deposit_ledger : Option ℕ
  pub error_message : Option Error
  pub processed_at : Option ℕ

pub data BatchStatus : Type 0 where
  pending processing completed partial failed cancelled : BatchStatus

-- roundup-batch.entity.ts
pub record RoundupBatch : Type 0 where
  pub id : ℕ
  pub record_count : ℕ
  pub total_amount : Amount
  pub status : BatchStatus
  pub successful_count : ℕ
  pub error_message : Option Error
  pub processing_started_at : Option ℕ
  pub processed_at : Option ℕ

abbrev pub config_id : RoundupConfig → ℕ
config_id c = c.id

abbrev pub record_id : RoundupRecord → ℕ
record_id r = r.id

abbrev pub batch_id : RoundupBatch → ℕ
batch_id b = b.id

-- The repository of the records, with the query for the pending ones of a configuration.
pub record RecordTable : Type 1 where
  pub rows : Table RoundupRecord record_id
  pub find_pending : ℕ → rows.Store → List RoundupRecord
  pub find_pending-pending :
      (config : ℕ) (s : rows.Store)
      → All
          (λ r.
            (r.status ≡ RecordStatus.pending)
            × (r.config_id ≡ config)
            × (rows.find_one r.id s ≡ some r))
          (find_pending config s)
  pub find_pending-complete :
      (config : ℕ) (s : rows.Store) (r : RoundupRecord)
      → rows.find_one r.id s ≡ some r
      → r.status ≡ RecordStatus.pending
      → r.config_id ≡ config
      → In r (find_pending config s)

pub record RoundupStores : Type 1 where
  pub configs : Table RoundupConfig config_id
  pub records : RecordTable
  pub batches : Table RoundupBatch batch_id
  pub balances : BalanceTable
  pub balance_cache : Cache BalanceView

pub record RoundupState (t : RoundupStores) : Type 0 where
  pub configs : t.configs.Store
  pub records : t.records.rows.Store
  pub batches : t.batches.Store
  pub accounts : BalanceState t.balances t.balance_cache
