-- ===== src/Reconciliation/Backfill.antt =====
-- backend/src/indexer/reconciliation.service.ts, `backfillGap`: events without a place, and a run
-- whose request for events fails.
use stow.Prelude.{
  ℕ, ◌+◌, ◌<◌, ◌≤◌, ◌≡◌, refl, ap, ◌∙◌, true, false, none, some, [], ◌∷◌, arith, ltb, leb, ==_refl,
}
use stow.Events.{EventData}
use stow.Indexer.State.{ContractEvent}
use stow.Reconciliation.Reorg.{IsReorg, detect_and_handle_reorg_unchanged, run_reconciliation_found}
use stow.Reconciliation.Lookup.{window_end, reconcile_window-row}
use stow.Reconciliation.State.{
  ChainSyncCheckpoint, SyncStores, Sync, EventRecord, object, failed, events, Rpc, SyncConfig,
}
use stow.Reconciliation.{fetch_chain_head, reconcile_window, run_reconciliation}
use stow.Reconciliation.State.{or_default}
use stow.Reconciliation.Gap.{
  backfilled_event, Rows, backfill_at, backfill_one, backfill_all, backfill_gap,
}

module _ (t : SyncStores) (empty : EventData) (to : ℕ) where
  backfill_at_new :
      (l : ℕ) (r : EventRecord) (count : ℕ) (rows : Rows t)
      → l ≤ to
      → t.indexer.events.find_at l (or_default r.log_index 0) rows ≡ none
      → backfill_at t empty to (some l) r (count, rows)
        ≡ (count + 1, t.indexer.events.save (backfilled_event empty l r) rows)
  backfill_at_new l r count rows le missing =
      let within : ltb to l ≡ false = ground arith in rw (within, missing) refl

  backfill_at_seen :
      (l : ℕ) (r : EventRecord) (count : ℕ) (rows : Rows t) (e : ContractEvent)
      → l ≤ to
      → t.indexer.events.find_at l (or_default r.log_index 0) rows ≡ some e
      → backfill_at t empty to (some l) r (count, rows) ≡ (count, rows)
  backfill_at_seen l r count rows e le found =
      let within : ltb to l ≡ false = ground arith in rw (within, found) refl

  -- Of two events without a place, of one ledger that is asked for and has no row at the place 0,
  -- the second is not stored.
  pub backfill_gap-drops :
      (l : ℕ) (r q : EventRecord) (rows : Rows t)
      → l ≤ to
      → r.ledger ≡ some l
      → q.ledger ≡ some l
      → r.log_index ≡ none
      → q.log_index ≡ none
      → t.indexer.events.find_at l 0 rows ≡ none
      → backfill_gap t empty to (events (object r ∷ object q ∷ [])) rows
        ≡ (1, t.indexer.events.save (backfilled_event empty l r) rows)
  unfolding backfill_gap backfill_all backfill_one
  backfill_gap-drops l r q rows le at_r at_q no_r no_q free =
      let find = λ (i : ℕ) (x : Rows t). t.indexer.events.find_at l i x in
      let place_r : or_default r.log_index 0 ≡ 0 = rw no_r refl in
      let place_q : or_default q.log_index 0 ≡ 0 = rw no_q refl in
      let event = backfilled_event empty l r in
      let first = backfill_at_new l r 0 rows le (ap (λ i. find i rows) place_r ∙ free) in
      let found : find 0 (t.indexer.events.save event rows) ≡ some event =
        rw (t.indexer.events.find_at-save l 0 event rows, place_r, ==_refl l) refl in
      ap (λ o. backfill_at t empty to q.ledger q (backfill_at t empty to o r (0, rows))) at_r
      ∙ ap (backfill_at t empty to q.ledger q) first
      ∙ ap (λ o. backfill_at t empty to o q (1, t.indexer.events.save event rows)) at_q
      ∙ backfill_at_seen l q 1 (t.indexer.events.save event rows) event le
          (ap (λ i. find i (t.indexer.events.save event rows)) place_q ∙ found)

module _ (t : SyncStores) (c : SyncConfig) where
  -- Where the RPC's address is set and the contract's row is stored, a run finds no reorganisation
  -- and is behind the head that the RPC reports, and the request for the events
  -- fails, no event is stored, and yet the checkpoint moves to the end of the window: later runs
  -- ask for later ledgers only.
  pub failed_run_moves :
      (rpc : Rpc) (contract chain_head : ℕ) (row : ChainSyncCheckpoint) (s : Sync t)
      → c.has_rpc ≡ true
      → t.sync.find_one contract s.sync ≡ some row
      → ((previous current : ℕ) → ¬ (IsReorg rpc row previous current))
      → fetch_chain_head rpc.get_head ≡ some chain_head
      → row.last_indexed_ledger < chain_head
      → ((from : ℕ) → rpc.get_events from ≡ failed)
      → let s' = run_reconciliation t c rpc contract s in
        (s'.indexer.events ≡ s.indexer.events)
        × ((row' : ChainSyncCheckpoint) × (t.sync.find_one contract s'.sync ≡ some row')
            × (row'.last_indexed_ledger ≡ window_end c row chain_head))
  unfolding reconcile_window backfill_gap
  failed_run_moves rpc contract chain_head row s set found calm at_head behind fails =
      let mine : row.contract_id ≡ contract = t.sync.find_one-key contract s.sync row found in
      let not_there : leb chain_head row.last_indexed_ledger ≡ false = ground arith in
      let moves : run_reconciliation t c rpc contract s
          ≡ reconcile_window t c rpc chain_head row s =
        run_reconciliation_found t c rpc contract row s found set
        ∙ rw (detect_and_handle_reorg_unchanged t c rpc contract row s calm, at_head, not_there)
            refl in
      let (row', found', mine', last, kept) =
        reconcile_window-row t c rpc contract chain_head row s mine behind in
      (
        ap (λ (x : Sync t). x.indexer.events) moves ∙ rw fails refl,
        (row', ap (λ (x : Sync t). t.sync.find_one contract x.sync) moves ∙ found', last),
      )
