-- ===== src/Reconciliation/Reaches.antt =====
-- backend/src/indexer/reconciliation.service.ts: the sweep's checkpoint and the head of the chain.
use stow.Prelude.{
  ℕ, zero, suc, ◌+◌, ◌*◌, ◌≤◌, ◌≡◌, ◌⊎◌, refl, sym, ◌∙◌, inl, inr, true, none, some, arith, leb,
  min, Bool-cases, some-eq,
}
use stow.Prelude.Table.{find_one-save_self}
use stow.Reconciliation.Reorg.{IsReorg, detect_and_handle_reorg_unchanged, run_reconciliation_found}
use stow.Reconciliation.Lookup.{window_end, reconcile_window-row, reconcile_window-reorgs}
use stow.Reconciliation.State.{ChainSyncCheckpoint, SyncStores, Sync, Rpc, SyncConfig}
use stow.Reconciliation.{
  get_reconcile_window, fetch_chain_head, hash_or, confirm_head, reconcile_window,
  run_reconciliation,
}
use stow.Reconciliation.Rollback.{fetch_ledger_hash}

-- The chain stands still: its head is `chain_head`, and every lookup of a ledger gives its hash.
pub record IsSettled (hash : ℕ → ℕ) (chain_head : ℕ) (rpc : Rpc) : Type 0 where
  pub at_head : fetch_chain_head rpc.get_head ≡ some chain_head
  pub hashes : (k l : ℕ) → fetch_ledger_hash (rpc.get_ledgers k l) ≡ some (hash l)

-- The row has no hash, or that of its ledger, which is not beyond the head.
pub record IsOnChain (hash : ℕ → ℕ) (chain_head : ℕ) (row : ChainSyncCheckpoint) : Type 0 where
  pub below : row.last_indexed_ledger ≤ chain_head
  pub known :
      (row.last_indexed_ledger_hash ≡ none)
      ⊎ (row.last_indexed_ledger_hash ≡ some (hash row.last_indexed_ledger))

module _ (t : SyncStores) (c : SyncConfig) (contract : ℕ) where
  -- `n` runs for one contract, one after the other; the RPC's answers may differ between them.
  abbrev pub runs : (ℕ → Rpc) → ℕ → Sync t → Sync t
  runs rpc zero s = s
  runs rpc (suc n) s = run_reconciliation t c (rpc n) contract (runs rpc n s)

  module _ (hash : ℕ → ℕ) (chain_head : ℕ) where
    -- What is kept from run to run, at the ledger `last`.
    abbrev pub At : ℕ → Sync t → Sync t → Type 0
    At last s s' =
        (row : ChainSyncCheckpoint) × (t.sync.find_one contract s'.sync ≡ some row)
        × IsOnChain hash chain_head row
        × (row.last_indexed_ledger ≡ last)
        × (s'.reorgs ≡ s.reorgs)

    settled_hash :
        (rpc : Rpc) (row : ChainSyncCheckpoint)
        → IsSettled hash chain_head rpc
        → IsOnChain hash chain_head row
        → (previous current : ℕ) → ¬ (IsReorg rpc row previous current)
    settled_hash rpc row h on previous current (was, nonempty, now, other) = elim (on.known) [
      | inl unknown ↦ cc
      | inr known ↦
          other (some-eq (sym now ∙ h.hashes 0 row.last_indexed_ledger) ∙ some-eq (sym known ∙ was))
    ]

    run_on :
        (rpc : Rpc) (row : ChainSyncCheckpoint) (s : Sync t)
        → IsSettled hash chain_head rpc
        → c.has_rpc ≡ true
        → t.sync.find_one contract s.sync ≡ some row
        → IsOnChain hash chain_head row
        → At (window_end c row chain_head) s (run_reconciliation t c rpc contract s)
    unfolding confirm_head
    run_on rpc row s h set found on =
        let mine : row.contract_id ≡ contract = t.sync.find_one-key contract s.sync row found in
        let begun = run_reconciliation_found t c rpc contract row s found set in
        let calm =
          detect_and_handle_reorg_unchanged t c rpc contract row s (settled_hash rpc row h on) in
        elim (Bool-cases (leb chain_head row.last_indexed_ledger)) [
          | inl there ↦
              let last : row.last_indexed_ledger ≡ window_end c row chain_head =
                ground (arith, on.below) in
              let row' : ChainSyncCheckpoint = record row {
                chain_head_ledger = chain_head;
                last_indexed_ledger_hash =
                    hash_or (fetch_ledger_hash (rpc.get_ledgers 2 row.last_indexed_ledger))
                      row.last_indexed_ledger_hash;
              } in
              let ends : run_reconciliation t c rpc contract s
                  ≡ confirm_head t rpc chain_head row s =
                begun ∙ rw (calm, h.at_head, there) refl in
              rw ends (
                row',
                find_one-save_self t.sync contract row' s.sync mine,
                record {
                  below = on.below;
                  known = inr (rw (h.hashes 2 row.last_indexed_ledger) refl);
                },
                last,
                refl,
              )
          | inr behind ↦
              let (row', found', mine', last, kept) =
                reconcile_window-row t c rpc contract chain_head row s mine (ground arith) in
              let moves : run_reconciliation t c rpc contract s
                  ≡ reconcile_window t c rpc chain_head row s =
                begun ∙ rw (calm, h.at_head, behind) refl in
              rw moves (
                row',
                found',
                record {
                  below = omega (arith, last);
                  known = inr (kept ∙ rw (h.hashes 2 (window_end c row chain_head), last) refl);
                },
                last,
                reconcile_window-reorgs t c rpc chain_head row s,
              )
        ]

  -- On a chain that stands still, with the RPC's address set and from a stored row that has no hash
  -- or that of its ledger and is not beyond the head, `n` runs bring the checkpoint `n`
  -- windows on, or to the head, whatever the RPC answers to the requests for events; no
  -- reorganisation is reported. So enough runs reach the head.
  pub runs_reach :
      (hash : ℕ → ℕ) (chain_head n : ℕ) (rpc : ℕ → Rpc) (row : ChainSyncCheckpoint) (s : Sync t)
      → ((k : ℕ) → IsSettled hash chain_head (rpc k))
      → c.has_rpc ≡ true
      → t.sync.find_one contract s.sync ≡ some row
      → IsOnChain hash chain_head row
      → At hash chain_head
          (min (row.last_indexed_ledger + n * get_reconcile_window c) chain_head)
          s
          (runs rpc n s)
  runs_reach hash chain_head zero rpc row s h set found on =
      (row, found, on, omega (arith, on.below), refl)
  runs_reach hash chain_head (suc n) rpc row s h set found on =
      let (row', found', on', last, same) = runs_reach hash chain_head n rpc row s h set found on in
      let (row'', found'', on'', last', same') =
        run_on hash chain_head (rpc n) row' (runs rpc n s) (h n) set found' on' in
      (row'', found'', on'', omega (arith, last, last'), same' ∙ same)
