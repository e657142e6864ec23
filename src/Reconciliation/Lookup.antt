-- ===== src/Reconciliation/Lookup.antt =====
-- A hash lookup that fails after the checkpoint has moved.
use stow.Prelude.{
  ℕ, ◌+◌, ◌-◌, ◌<◌, ◌≡◌, ◌≢◌, refl, sym, ap, ◌∙◌, true, false, none, some, ◌∷◌, arith, leb, min,
  max, some-eq,
}
use stow.Prelude.Table.{find_one-save_self}
use stow.Amounts.{empty_text}
use stow.Reconciliation.Reorg.{
  detect_and_handle_reorg_unchanged, detect_and_handle_reorg_audits, run_reconciliation_found,
  run_to_head-reorgs,
}
use stow.Reconciliation.State.{ChainSyncCheckpoint, ReorgEvent, SyncStores, Sync, Rpc, SyncConfig}
use stow.Reconciliation.{
  get_reconcile_window, fetch_chain_head, hash_or, reconciled_row, reconcile_window,
  run_reconciliation,
}
use stow.Reconciliation.Rollback.{fetch_ledger_hash, detect_and_handle_reorg}
use stow.Reconciliation.Gap.{backfill_gap}

-- The last ledger of the window that a run works on.
abbrev pub window_end : SyncConfig → ChainSyncCheckpoint → ℕ → ℕ
window_end c row chain_head = min (row.last_indexed_ledger + get_reconcile_window c) chain_head

module _ (t : SyncStores) (c : SyncConfig) (rpc : Rpc) where
  -- What a run leaves of its row where it works on a window.
  pub reconcile_window-row :
      (contract chain_head : ℕ) (row : ChainSyncCheckpoint) (s : Sync t)
      → row.contract_id ≡ contract
      → row.last_indexed_ledger < chain_head
      → (row' : ChainSyncCheckpoint) × (t.sync.find_one contract
            (reconcile_window t c rpc chain_head row s).sync
          ≡ some row')
        × (row'.contract_id ≡ contract)
        × (row'.last_indexed_ledger ≡ window_end c row chain_head)
        × (row'.last_indexed_ledger_hash
            ≡ hash_or
                (fetch_ledger_hash (rpc.get_ledgers 2 (window_end c row chain_head)))
                row.last_indexed_ledger_hash)
  unfolding reconcile_window
  reconcile_window-row contract chain_head row s mine behind =
      let from = max (row.last_indexed_ledger + 1) 1 in
      let to = min (from + get_reconcile_window c - 1) chain_head in
      let done = backfill_gap t c.empty to (rpc.get_events from) s.indexer.events in
      let counted : leb 0 done.0 ≡ true = ground arith in
      let same : to ≡ window_end c row chain_head = omega arith in
      let row' = reconciled_row t rpc chain_head from to done.0 row in
      (
        row',
        find_one-save_self t.sync contract row' s.sync mine,
        mine,
        rw counted same,
        rw (counted, ← same) refl,
      )

  pub reconcile_window-reorgs :
      (chain_head : ℕ) (row : ChainSyncCheckpoint) (s : Sync t)
      → (reconcile_window t c rpc chain_head row s).reorgs ≡ s.reorgs
  unfolding reconcile_window
  reconcile_window-reorgs chain_head row s = refl

module _ (t : SyncStores) (c : SyncConfig) where
  -- A reorganisation is reported although the chain kept its hashes. The RPC's address is set and the
  -- row is stored with a hash that is no empty text. A first run, behind the head, finds the stored
  -- hash of its last ledger confirmed and moves on, but the lookup of the new ledger's hash fails,
  -- so the old ledger's hash stays in the row. The next run compares it with the hash of the new
  -- ledger, which is another one, and rolls the events back.
  pub reorg_of_missing_hash :
      (rpc next : Rpc) (contract chain_head hash hash' : ℕ) (row : ChainSyncCheckpoint) (s : Sync t)
      → c.has_rpc ≡ true
      → t.sync.find_one contract s.sync ≡ some row
      → row.last_indexed_ledger_hash ≡ some hash
      → hash ≢ empty_text
      → fetch_ledger_hash (rpc.get_ledgers 0 row.last_indexed_ledger) ≡ some hash
      → fetch_chain_head rpc.get_head ≡ some chain_head
      → row.last_indexed_ledger < chain_head
      → fetch_ledger_hash (rpc.get_ledgers 2 (window_end c row chain_head)) ≡ none
      → fetch_ledger_hash (next.get_ledgers 0 (window_end c row chain_head)) ≡ some hash'
      → hash' ≢ hash
      → (audit : ReorgEvent) × ((run_reconciliation t c next contract
            (run_reconciliation t c rpc contract s)).reorgs
          ≡ audit ∷ s.reorgs)
        × (audit.previous_ledger ≡ window_end c row chain_head)
        × (audit.previous_hash ≡ hash)
        × (audit.new_hash ≡ hash')
  reorg_of_missing_hash rpc next contract chain_head hash hash' row s set found stored nonempty
        confirmed at_head behind fails reported other =
      let mine : row.contract_id ≡ contract = t.sync.find_one-key contract s.sync row found in
      let calm =
        detect_and_handle_reorg_unchanged t c rpc contract row s
          (λ p q (was, nonempty', now, differs).
            differs (some-eq (sym now ∙ confirmed) ∙ some-eq (sym stored ∙ was))) in
      let behind' : leb chain_head row.last_indexed_ledger ≡ false = ground arith in
      let first : run_reconciliation t c rpc contract s
          ≡ reconcile_window t c rpc chain_head row s =
        run_reconciliation_found t c rpc contract row s found set
        ∙ rw (calm, at_head, behind') refl in
      let s' = reconcile_window t c rpc chain_head row s in
      let (row', found', mine', last, kept) =
        reconcile_window-row t c rpc contract chain_head row s mine behind in
      let (audit, audited, previous, was, now) =
        detect_and_handle_reorg_audits t c next contract row' s' hash hash'
          (kept ∙ rw fails stored, nonempty, rw last reported, other) in
      let second = run_reconciliation_found t c next contract row' s' found' set in
      (
        audit,
        ap (λ x. (run_reconciliation t c next contract x).reorgs) first
            ∙ ap (λ (x : Sync t). x.reorgs) second
            ∙ run_to_head-reorgs t c next (fetch_chain_head next.get_head)
                (detect_and_handle_reorg t c next contract row' s')
            ∙ audited
            ∙ ap (λ x. audit ∷ x) (reconcile_window-reorgs t c rpc chain_head row s),
        previous ∙ last,
        was,
        now,
      )
