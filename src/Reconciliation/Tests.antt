-- ===== src/Reconciliation/Tests.antt =====
-- The theorems at concrete inputs.
use stow.Prelude.{
  ℕ, zero, suc, ◌+◌, ◌≡◌, ◌⊎◌, refl, inr, true, false, Option, none, some, [], ◌∷◌, arith, ltb,
  if◌then◌else◌,
}
use stow.Prelude.Table.{list_table}
use stow.Events.{Topic}
use stow.Projection.Sample.{sample_data}
use stow.Indexer.Sample.{place_table, sample_stores, empty_indexer}
use stow.Reconciliation.Reorg.{IsReorg, fork_ledger, RolledBack, detect_and_handle_reorg_lem}
use stow.Reconciliation.Rows.{answer_row, items_of, backfill_gap-find_at}
use stow.Indexer.Rows.{or_row}
use stow.Reconciliation.Reaches.{runs, At, runs_reach}
use stow.Reconciliation.State.{
  ChainSyncCheckpoint, contract_of, EventDeletion, SyncStores, Sync, LedgersAnswer, no_ledgers,
  ledgers, head, EventRecord, no_object, object, failed, events, Rpc, SyncConfig,
}
use stow.Reconciliation.Rollback.{fetch_ledger_hash, detect_and_handle_reorg}
use stow.Reconciliation.Gap.{backfill_gap}

abbrev place_deletion : EventDeletion place_table
place_deletion = record {
  delete_above = λ n s. ((λ l i. if ltb n l then none else s.0 l i), s.1);
  affected = λ n s. none;
  find_at-delete_above = λ l i n s. refl;
}

abbrev sync_stores : SyncStores
sync_stores = record {
  indexer = sample_stores;
  deletion = place_deletion;
  sync = list_table contract_of;
}

abbrev config : SyncConfig
config = record {
  rollback_depth = some 3;
  window = some 20;
  interval_ms = none;
  has_rpc = true;
  empty = sample_data;
}

-- The hash of the ledger `l` is the text `l + 7`.
abbrev row_at : ℕ → ChainSyncCheckpoint
row_at ledger = record {
  contract_id = 1;
  last_indexed_ledger = ledger;
  last_indexed_ledger_hash = some (ledger + 7);
  chain_head_ledger = 0;
  last_reconciled_from = 0;
  last_reconciled_to = 0;
  last_reconciled_at = none;
  last_backfill_count = 0;
}

abbrev sync_at : ℕ → Sync sync_stores
sync_at ledger = record {
  indexer = empty_indexer;
  sync = row_at ledger ∷ [];
  reorgs = [];
  is_running = false;
  last_run_at = none;
  last_backfill_count = 0;
}

abbrev hash_of : ℕ → ℕ
hash_of ledger = ledger + 7

-- The head is 50; the requests for events fail.
abbrev steady : Rpc
steady = record {
  get_ledgers = λ k l. ledgers (some (l + 7) ∷ []);
  get_head = head (some 50);
  get_events = λ from. failed;
  now = 5;
}

abbrev forked : Rpc
forked = record steady { get_ledgers = λ k l. ledgers (some (l + 8) ∷ []) }

-- The lookup at the end of the run fails.
abbrev ledgers_but_last : ℕ → ℕ → LedgersAnswer
ledgers_but_last zero l = ledgers (some (l + 7) ∷ [])
ledgers_but_last (suc k) l = no_ledgers

abbrev flaky : Rpc
flaky = record steady { get_ledgers = ledgers_but_last }

abbrev item_of : Option ℕ → EventRecord
item_of place = record {
  ledger = some 45;
  log_index = place;
  type = some Topic.deposit;
  value_event = none;
  value_event_type = none;
  value = some sample_data;
  contents = none;
  tx_hash = none;
}

detect_and_handle_reorg_lem_example :
    ((previous : ℕ) × (current : ℕ) × IsReorg forked (row_at 40) previous current
      × (let (row', s') =
            detect_and_handle_reorg sync_stores config forked 1 (row_at 40) (sync_at 40) in
          RolledBack sync_stores 1
            (fork_ledger config (row_at 40))
            previous
            current
            (row_at 40)
            row'
            (sync_at 40)
            s'))
    ⊎ (((previous current : ℕ) → ¬ (IsReorg forked (row_at 40) previous current))
        × (detect_and_handle_reorg sync_stores config forked 1 (row_at 40) (sync_at 40)
            ≡ (row_at 40, sync_at 40)))
detect_and_handle_reorg_lem_example =
    detect_and_handle_reorg_lem sync_stores config forked 1 (row_at 40) (sync_at 40)

-- Three runs from 10, by 20 ledgers each, reach the head at 50.
runs_reach_example :
    At sync_stores config 1 hash_of 50 50
      (sync_at 10)
      (runs sync_stores config 1 (λ k. steady) 3 (sync_at 10))
unfolding fetch_ledger_hash
runs_reach_example =
    runs_reach sync_stores config 1 hash_of 50 3 (λ k. steady) (row_at 10) (sync_at 10)
      (λ k. record { at_head = refl; hashes = λ k' l. refl }) refl refl
      (record { below = omega arith; known = inr refl })

-- An event that gives no place is stored at the place 0.
backfill_gap-find_at_example :
    place_table.find_at 45 0
      (backfill_gap sync_stores sample_data 50
        (events (object (item_of none) ∷ no_object ∷ []))
        empty_indexer.events).1
    ≡ or_row (place_table.find_at 45 0 empty_indexer.events) (
        answer_row sample_data 50 45 0 (items_of (events (object (item_of none) ∷ no_object ∷ []))))
backfill_gap-find_at_example =
    backfill_gap-find_at sync_stores sample_data 50
      (events (object (item_of none) ∷ no_object ∷ [])) empty_indexer.events 45 0
