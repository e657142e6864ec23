-- ===== src/Reconciliation/Rollback.antt =====
-- backend/src/indexer/reconciliation.service.ts: reorganisations (`detectAndHandleReorg`).
use stow.Prelude.{ℕ, ◌-◌, Option, none, some, [], ◌∷◌, ◌==◌, max, if◌then◌else◌}
use stow.Amounts.{empty_text}
use stow.Indexer.{ledger_key}
use stow.Indexer.State.{Checkpoint}
use stow.Reconciliation.State.{
  or_default, ChainSyncCheckpoint, ReorgEvent, SyncStores, Sync, LedgersAnswer, no_ledgers, ledgers,
  Rpc, SyncConfig,
}

-- `DEFAULT_REORG_ROLLBACK_DEPTH`
abbrev pub rollback_depth : SyncConfig → ℕ
rollback_depth c = or_default c.rollback_depth 10

-- `fetchLedgerHash`, from the answer on
unfoldable pub fetch_ledger_hash : LedgersAnswer → Option ℕ
fetch_ledger_hash no_ledgers = none
fetch_ledger_hash (ledgers []) = none
fetch_ledger_hash (ledgers (hash ∷ _)) = hash

module _ (t : SyncStores) where
  -- `update({ key: CHECKPOINT_LEDGER_KEY }, { value })`, which creates no row
  abbrev pub update_value :
      Option Checkpoint → ℕ → t.indexer.checkpoints.Store → t.indexer.checkpoints.Store
  update_value none ledger s = s
  update_value (some row) ledger s = t.indexer.checkpoints.save (record row { value = ledger }) s

  unfoldable pub rewind_indexer : ℕ → t.indexer.checkpoints.Store → t.indexer.checkpoints.Store
  rewind_indexer ledger s = update_value (t.indexer.checkpoints.find_one ledger_key s) ledger s

  abbrev pub rewound_row : Rpc → ℕ → ChainSyncCheckpoint → ChainSyncCheckpoint
  rewound_row rpc fork row = record row {
    last_indexed_ledger = fork;
    last_indexed_ledger_hash = fetch_ledger_hash (rpc.get_ledgers 1 fork);
  }

  abbrev pub audit_row : Rpc → ℕ → ℕ → ℕ → ℕ → ℕ → Option ℕ → ReorgEvent
  audit_row rpc contract fork previous previous_hash current_hash affected = record {
    contract_id = contract;
    fork_ledger = fork;
    previous_ledger = previous;
    previous_hash = previous_hash;
    new_hash = current_hash;
    rolled_back_event_count = or_default affected 0;
    detected_at = rpc.now;
  }

  -- The rollback to the ledger `fork`.
  abbrev pub roll_back_to :
      Rpc → ℕ → ℕ → ℕ → ChainSyncCheckpoint → Sync t → ℕ → ChainSyncCheckpoint × Sync t
  roll_back_to rpc contract previous_hash current_hash row s fork = (
    rewound_row rpc fork row,
    record s {
      indexer = record s.indexer {
        events = t.deletion.delete_above fork s.indexer.events;
        checkpoints = rewind_indexer fork s.indexer.checkpoints;
      };
      sync = t.sync.save (rewound_row rpc fork row) s.sync;
      reorgs =
          audit_row rpc contract fork row.last_indexed_ledger previous_hash current_hash
            (t.deletion.affected fork s.indexer.events)
          ∷ s.reorgs;
    },
  )

  -- What `detectAndHandleReorg` does once it has found that the hash of the last ledger changed.
  unfoldable pub roll_back :
      SyncConfig → Rpc → ℕ → ℕ → ℕ → ChainSyncCheckpoint → Sync t → ChainSyncCheckpoint × Sync t
  unfolding fetch_ledger_hash rewind_indexer
  roll_back c rpc contract previous_hash current_hash row s =
      roll_back_to rpc contract previous_hash current_hash row s
        (max (row.last_indexed_ledger - rollback_depth c) 0)

  abbrev pub compare_hashes :
      SyncConfig
      → Rpc
      → ℕ
      → ℕ
      → Option ℕ
      → ChainSyncCheckpoint
      → Sync t
      → ChainSyncCheckpoint × Sync t
  compare_hashes c rpc contract previous none row s = (row, s)
  compare_hashes c rpc contract previous (some current) row s =
      if current == previous then (row, s) else roll_back c rpc contract previous current row s

  abbrev pub check_hash :
      SyncConfig → Rpc → ℕ → Option ℕ → ChainSyncCheckpoint → Sync t → ChainSyncCheckpoint × Sync t
  check_hash c rpc contract none row s = (row, s)
  check_hash c rpc contract (some previous) row s =
      if previous == empty_text
      then (row, s)
      else compare_hashes c rpc contract previous
          (fetch_ledger_hash (rpc.get_ledgers 0 row.last_indexed_ledger)) row s

  -- `detectAndHandleReorg`: the caller's row, which is changed in place, and the state.
  unfoldable pub detect_and_handle_reorg :
      SyncConfig → Rpc → ℕ → ChainSyncCheckpoint → Sync t → ChainSyncCheckpoint × Sync t
  unfolding roll_back
  detect_and_handle_reorg c rpc contract row s =
      check_hash c rpc contract row.last_indexed_ledger_hash row s
