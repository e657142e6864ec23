-- ===== src/Reconciliation/Reorg.antt =====
-- What a run makes of the hash that the chain reports for the last ledger indexed.
use stow.Prelude.{
  ℕ, ◌-◌, ◌<◌, ◌≤◌, ◌≡◌, ◌≢◌, ◌⊎◌, refl, sym, ◌∙◌, inl, inr, true, Option, none, some, ◌∷◌, arith,
  max, ◌==◌, ==_iff, Bool-cases, Option-cases, some-eq,
}
use stow.Prelude.Table.{find_one-save_self}
use stow.Amounts.{empty_text}
use stow.Indexer.{ledger_key, get_checkpoint}
use stow.Indexer.State.{Checkpoint}
use stow.Reconciliation.State.{ChainSyncCheckpoint, ReorgEvent, SyncStores, Sync, Rpc, SyncConfig}
use stow.Reconciliation.{
  fetch_chain_head, get_or_create_checkpoint, confirm_head, reconcile_window, run_to_head,
  run_reconciliation,
}
use stow.Reconciliation.Rollback.{
  rollback_depth, fetch_ledger_hash, rewound_row, audit_row, roll_back_to, rewind_indexer,
  roll_back, detect_and_handle_reorg,
}

-- The chain now reports the hash `current` for the last ledger indexed, and not the one stored.
abbrev pub IsReorg : Rpc → ChainSyncCheckpoint → ℕ → ℕ → Type 0
IsReorg rpc row previous current =
    (row.last_indexed_ledger_hash ≡ some previous)
    × (previous ≢ empty_text)
    × (fetch_ledger_hash (rpc.get_ledgers 0 row.last_indexed_ledger) ≡ some current)
    × (current ≢ previous)

abbrev pub fork_ledger : SyncConfig → ChainSyncCheckpoint → ℕ
fork_ledger c row = row.last_indexed_ledger - rollback_depth c

module _ (t : SyncStores) where
  -- The state after a rollback to the ledger `fork`.
  pub record RolledBack (contract fork previous current : ℕ) (row row' : ChainSyncCheckpoint)
      (s s' : Sync t) : Type 0 where
    -- no stored event is beyond the fork, and none up to it was touched
    pub gone : (l i : ℕ) → fork < l → t.indexer.events.find_at l i s'.indexer.events ≡ none
    pub kept :
        (l i : ℕ)
        → l ≤ fork
        → t.indexer.events.find_at l i s'.indexer.events
          ≡ t.indexer.events.find_at l i s.indexer.events
    -- both checkpoints are at the fork; the indexer's is only updated where it has a row
    pub resumes : row'.last_indexed_ledger ≡ fork
    pub saved : t.sync.find_one row.contract_id s'.sync ≡ some row'
    pub agrees :
        (r : Checkpoint)
        → t.indexer.checkpoints.find_one ledger_key s.indexer.checkpoints ≡ some r
        → get_checkpoint t.indexer ledger_key s'.indexer.checkpoints ≡ fork
    -- one audit row was written
    pub audit : ReorgEvent
    pub audited : s'.reorgs ≡ audit ∷ s.reorgs
    pub audit_fork : audit.fork_ledger ≡ fork
    pub audit_previous : audit.previous_ledger ≡ row.last_indexed_ledger
    pub audit_hashes : (audit.previous_hash ≡ previous) × (audit.new_hash ≡ current)
    pub audit_contract : audit.contract_id ≡ contract

  rewind_indexer-reads :
      (fork : ℕ) (s : t.indexer.checkpoints.Store) (r : Checkpoint)
      → t.indexer.checkpoints.find_one ledger_key s ≡ some r
      → get_checkpoint t.indexer ledger_key (rewind_indexer t fork s) ≡ fork
  unfolding rewind_indexer get_checkpoint
  rewind_indexer-reads fork s r found =
      let key : r.key ≡ ledger_key = t.indexer.checkpoints.find_one-key ledger_key s r found in
      rw
        (
          found,
          find_one-save_self t.indexer.checkpoints ledger_key (record r { value = fork }) s key,
        )
        refl

  module _ (c : SyncConfig) (rpc : Rpc) (contract : ℕ) (row : ChainSyncCheckpoint)
      (s : Sync t) where
    roll_back_to-RolledBack :
        (previous current fork : ℕ)
        → let (row', s') = roll_back_to t rpc contract previous current row s fork in
          RolledBack contract fork previous current row row' s s'
    roll_back_to-RolledBack previous current fork = record {
      gone = λ l i p. ground (arith, t.deletion.find_at-delete_above l i fork s.indexer.events);
      kept = λ l i p. ground (arith, t.deletion.find_at-delete_above l i fork s.indexer.events);
      resumes = refl;
      saved = find_one-save_self t.sync row.contract_id (rewound_row t rpc fork row) s.sync refl;
      agrees = λ r found. rewind_indexer-reads fork s.indexer.checkpoints r found;
      audit =
          audit_row t rpc contract fork row.last_indexed_ledger previous current
            (t.deletion.affected fork s.indexer.events);
      audited = refl;
      audit_fork = refl;
      audit_previous = refl;
      audit_hashes = (refl, refl);
      audit_contract = refl;
    }

    roll_back-RolledBack :
        (previous current : ℕ)
        → let (row', s') = roll_back t c rpc contract previous current row s in
          RolledBack contract (fork_ledger c row) previous current row row' s s'
    unfolding roll_back
    roll_back-RolledBack previous current =
        let same : max (fork_ledger c row) 0 ≡ fork_ledger c row = omega arith in
        rw same (roll_back_to-RolledBack previous current (fork_ledger c row))

    -- Where the stored hash is no empty text and the chain reports another one for the last ledger
    -- indexed, the events beyond the fork are gone and the others are untouched, both checkpoints
    -- are at the fork, the indexer's where it has a row, and one audit row tells of it. Where it is
    -- not so, in particular where a hash is missing, the row and the state are as before.
    pub detect_and_handle_reorg_lem :
        ((previous : ℕ) × (current : ℕ) × IsReorg rpc row previous current
          × (let (row', s') = detect_and_handle_reorg t c rpc contract row s in
              RolledBack contract (fork_ledger c row) previous current row row' s s'))
        ⊎ (((previous current : ℕ) → ¬ (IsReorg rpc row previous current))
            × (detect_and_handle_reorg t c rpc contract row s ≡ (row, s)))
    unfolding detect_and_handle_reorg
    detect_and_handle_reorg_lem = elim (Option-cases row.last_indexed_ledger_hash) [
      | inl unknown ↦ inr ((λ p q h. cc), rw unknown refl)
      | inr (previous, stored) ↦ elim (Bool-cases (previous == empty_text)) [
        | inl blank ↦ inr (
          (λ p q (was, nonempty, now, other).
              nonempty (some-eq (sym was ∙ stored) ∙ (==_iff previous empty_text).0 blank)),
          rw (stored, blank) refl,
        )
        | inr full ↦
            elim (Option-cases (fetch_ledger_hash (rpc.get_ledgers 0 row.last_indexed_ledger))) [
              | inl missing ↦ inr ((λ p q h. cc), rw (stored, full, missing) refl)
              | inr (current, reported) ↦ elim (Bool-cases (current == previous)) [
                | inl same ↦ inr (
                  (λ p q (was, nonempty, now, other). other (
                      some-eq (sym now ∙ reported)
                      ∙ (==_iff current previous).0 same
                      ∙ some-eq (sym stored ∙ was))),
                  rw (stored, full, reported, same) refl,
                )
                | inr differs ↦
                    let rolls : detect_and_handle_reorg t c rpc contract row s
                        ≡ roll_back t c rpc contract previous current row s =
                      rw (stored, full, reported, differs) refl in
                    inl (
                      previous,
                      current,
                      (
                        stored,
                        (λ e. ground (arith, ==_iff previous empty_text)),
                        reported,
                        (λ e. ground (arith, ==_iff current previous)),
                      ),
                      rw rolls (roll_back-RolledBack previous current),
                    )
              ]
            ]
      ]
    ]

    pub detect_and_handle_reorg_unchanged :
        ((previous current : ℕ) → ¬ (IsReorg rpc row previous current))
        → detect_and_handle_reorg t c rpc contract row s ≡ (row, s)
    detect_and_handle_reorg_unchanged never = elim detect_and_handle_reorg_lem [
      | inl (previous, current, found, rest) ↦ absurd (never previous current found)
      | inr (never_is, same) ↦ same
    ]

    pub detect_and_handle_reorg_audits :
        (previous current : ℕ)
        → IsReorg rpc row previous current
        → (audit : ReorgEvent) × ((detect_and_handle_reorg t c rpc contract row s).1.reorgs
            ≡ audit ∷ s.reorgs)
          × (audit.previous_ledger ≡ row.last_indexed_ledger)
          × (audit.previous_hash ≡ previous)
          × (audit.new_hash ≡ current)
    detect_and_handle_reorg_audits previous current (was, nonempty, now, other) =
        elim detect_and_handle_reorg_lem [
          | inr (never_is, same) ↦ absurd (never_is previous current (was, nonempty, now, other))
          | inl (p, q, (was', nonempty', now', other'), r) ↦ (
            r.audit,
            r.audited,
            r.audit_previous,
            r.audit_hashes.0 ∙ some-eq (sym was' ∙ was),
            r.audit_hashes.1 ∙ some-eq (sym now' ∙ now),
          )
        ]

module _ (t : SyncStores) (c : SyncConfig) (rpc : Rpc) where
  -- A run on a stored row, where the RPC's address is set.
  pub run_reconciliation_found :
      (contract : ℕ) (row : ChainSyncCheckpoint) (s : Sync t)
      → t.sync.find_one contract s.sync ≡ some row
      → c.has_rpc ≡ true
      → run_reconciliation t c rpc contract s
        ≡ run_to_head t c rpc
            (fetch_chain_head rpc.get_head)
            (detect_and_handle_reorg t c rpc contract row s)
  unfolding run_reconciliation get_or_create_checkpoint
  run_reconciliation_found contract row s found set = rw (found, set) refl

  -- What follows the test for a reorganisation writes no audit row.
  pub run_to_head-reorgs :
      (chain_head : Option ℕ) (p : ChainSyncCheckpoint × Sync t)
      → (run_to_head t c rpc chain_head p).reorgs ≡ p.1.reorgs
  unfolding confirm_head reconcile_window
  run_to_head-reorgs none (row, s) = refl
  run_to_head-reorgs (some chain_head) (row, s) = ground arith
