-- ===== src/Reconciliation.antt =====
-- backend/src/indexer/reconciliation.service.ts: the sweep that fills gaps and undoes reorganised
-- ledgers. It shares the stored events and a checkpoint with the indexer. Logging and exceptions of
-- the database are left out.
pub mod State
pub mod Gap
pub mod Rollback
pub mod Reorg
pub mod Lookup
pub mod Backfill
pub mod Rows
pub mod Reaches
mod Tests
use stow.Prelude.{
  ℕ, suc, ◌+◌, ◌-◌, Bool, true, false, not, Option, none, some, List, [], ◌∷◌, take, ltb, leb, ◌==◌,
  ◌&&◌, min, max, if◌then◌else◌,
}
use stow.Amounts.{empty_text}
use stow.Events.{Topic, EventData}
use stow.Indexer.{ledger_key}
use stow.Indexer.State.{EventStatus, ContractEvent, Checkpoint, IndexerStores, Indexer}
use State.{
  or_default, ChainSyncCheckpoint, ReorgEvent, EventDeletion, SyncStores, Sync, LedgersAnswer,
  no_ledgers, ledgers, HeadAnswer, no_head, head, EventRecord, EventItem, no_object, object,
  EventsAnswer, failed, events, Rpc, SyncConfig,
}
use Gap.{backfill_gap}
use Rollback.{fetch_ledger_hash, detect_and_handle_reorg}

-- `setting && setting > 0 ? setting : fallback`
abbrev pub positive_or : Option ℕ → ℕ → ℕ
positive_or none fallback = fallback
positive_or (some n) fallback = if ltb 0 n then n else fallback

abbrev pub get_reconcile_window : SyncConfig → ℕ
get_reconcile_window c = positive_or c.window 200

abbrev pub get_reconcile_interval_ms : SyncConfig → ℕ
get_reconcile_interval_ms c = positive_or c.interval_ms 60_000

-- `fetchChainHead`, from the answer on
abbrev pub fetch_chain_head : HeadAnswer → Option ℕ
fetch_chain_head no_head = none
fetch_chain_head (head latest) = latest

-- `a ?? b`
abbrev pub hash_or : Option ℕ → Option ℕ → Option ℕ
hash_or none kept = kept
hash_or (some hash) kept = some hash

module _ (t : SyncStores) where
  abbrev new_checkpoint_row : ℕ → ChainSyncCheckpoint
  new_checkpoint_row contract = record {
    contract_id = contract;
    last_indexed_ledger = 0;
    last_indexed_ledger_hash = none;
    chain_head_ledger = 0;
    last_reconciled_from = 0;
    last_reconciled_to = 0;
    last_reconciled_at = none;
    last_backfill_count = 0;
  }

  abbrev save_row : ChainSyncCheckpoint → Sync t → Sync t
  save_row row s = record s { sync = t.sync.save row s.sync }

  abbrev pub found_or_created :
      ℕ → Option ChainSyncCheckpoint → Sync t → ChainSyncCheckpoint × Sync t
  found_or_created contract (some row) s = (row, s)
  found_or_created contract none s =
      (new_checkpoint_row contract, save_row (new_checkpoint_row contract) s)

  unfoldable pub get_or_create_checkpoint : ℕ → Sync t → ChainSyncCheckpoint × Sync t
  get_or_create_checkpoint contract s =
      found_or_created contract (t.sync.find_one contract s.sync) s

  -- The rest of `runReconciliation` where the checkpoint is at the head.
  unfoldable pub confirm_head : Rpc → ℕ → ChainSyncCheckpoint → Sync t → Sync t
  unfolding fetch_ledger_hash
  confirm_head rpc chain_head row s =
      record (save_row
        (record row {
          chain_head_ledger = chain_head;
          last_indexed_ledger_hash =
              hash_or (fetch_ledger_hash (rpc.get_ledgers 2 row.last_indexed_ledger))
                row.last_indexed_ledger_hash;
        })
        s) { last_run_at = some rpc.now }

  -- The row after the window from `from` to `to`, in which `count` events were new.
  abbrev pub reconciled_row : Rpc → ℕ → ℕ → ℕ → ℕ → ChainSyncCheckpoint → ChainSyncCheckpoint
  reconciled_row rpc chain_head from to count row =
      let indexed = if leb 0 count then to else row.last_indexed_ledger in
      record row {
        last_indexed_ledger = indexed;
        last_indexed_ledger_hash =
            hash_or (fetch_ledger_hash (rpc.get_ledgers 2 indexed)) row.last_indexed_ledger_hash;
        chain_head_ledger = chain_head;
        last_reconciled_from = from;
        last_reconciled_to = to;
        last_reconciled_at = some rpc.now;
        last_backfill_count = count;
      }

  -- The rest of `runReconciliation` where it is behind.
  unfoldable pub reconcile_window : SyncConfig → Rpc → ℕ → ChainSyncCheckpoint → Sync t → Sync t
  unfolding fetch_ledger_hash backfill_gap
  reconcile_window c rpc chain_head row s =
      let from = max (row.last_indexed_ledger + 1) 1 in
      let to = min (from + get_reconcile_window c - 1) chain_head in
      let (count, rows) = backfill_gap t c.empty to (rpc.get_events from) s.indexer.events in
      record s {
        indexer = record s.indexer { events = rows };
        sync = t.sync.save (reconciled_row rpc chain_head from to count row) s.sync;
        last_run_at = some rpc.now;
        last_backfill_count = count;
      }

  abbrev pub run_to_head : SyncConfig → Rpc → Option ℕ → ChainSyncCheckpoint × Sync t → Sync t
  run_to_head c rpc none (row, s) = s
  run_to_head c rpc (some chain_head) (row, s) =
      if leb chain_head row.last_indexed_ledger
      then confirm_head rpc chain_head row s
      else reconcile_window c rpc chain_head row s

  abbrev pub run_with : SyncConfig → Rpc → ℕ → ChainSyncCheckpoint × Sync t → Sync t
  run_with c rpc contract (row, s) =
      if c.has_rpc
      then run_to_head c rpc (fetch_chain_head rpc.get_head)
          (detect_and_handle_reorg t c rpc contract row s)
      else s

  -- `runReconciliation(contractId)`
  unfoldable pub run_reconciliation : SyncConfig → Rpc → ℕ → Sync t → Sync t
  unfolding get_or_create_checkpoint detect_and_handle_reorg confirm_head reconcile_window
  run_reconciliation c rpc contract s =
      run_with c rpc contract (get_or_create_checkpoint contract s)

  run_all : SyncConfig → List (ℕ × Rpc) → Sync t → Sync t
  unfolding run_reconciliation
  run_all c [] s = s
  run_all c ((contract, rpc) ∷ rest) s = run_all c rest (run_reconciliation c rpc contract s)

  -- `reconcile()`; `enabled` is `isEnabled()`, and the contracts come each with the RPC during its
  -- run.
  unfoldable pub reconcile : Bool → SyncConfig → List (ℕ × Rpc) → Sync t → Sync t
  unfolding run_all
  reconcile enabled c [] s = s
  reconcile enabled c (contract ∷ contracts) s =
      if enabled && not s.is_running
      then record (run_all c (contract ∷ contracts) (record s { is_running = true })) {
        is_running = false;
      }
      else s

  -- `advanceCheckpoint(contractId, ledger)`
  abbrev pub advance_row : ℕ → ChainSyncCheckpoint × Sync t → Sync t
  advance_row ledger (row, s) =
      if ltb row.last_indexed_ledger ledger
      then save_row (record row { last_indexed_ledger = ledger }) s
      else s

  unfoldable pub advance_checkpoint : ℕ → ℕ → Sync t → Sync t
  unfolding get_or_create_checkpoint
  advance_checkpoint contract ledger s = advance_row ledger (get_or_create_checkpoint contract s)

-- `getReconciledContractIds()`: of SOROBAN_CONTRACT_ID and YIELD_ADAPTER_CONTRACT_ID, those that are
-- set; `placeholder` is the text 'your-contract-id-here'.
abbrev pub is_contract : ℕ → Option ℕ → List ℕ → List ℕ
is_contract placeholder none ids = ids
is_contract placeholder (some id) ids =
    if id == empty_text then ids else if id == placeholder then ids else id ∷ ids

abbrev pub get_reconciled_contract_ids : ℕ → Option ℕ → Option ℕ → List ℕ
get_reconciled_contract_ids placeholder vault adapter =
    is_contract placeholder vault (is_contract placeholder adapter [])

-- `getReorgEvents(contractId, limit)`; the empty text is no contract.
abbrev of_contract : ℕ → List ReorgEvent → List ReorgEvent
of_contract id [] = []
of_contract id (r ∷ rs) = if r.contract_id == id then r ∷ of_contract id rs else of_contract id rs

abbrev pub get_reorg_events : Option ℕ → ℕ → List ReorgEvent → List ReorgEvent
get_reorg_events none limit rs = take limit rs
get_reorg_events (some id) limit rs = take limit (of_contract id rs)
