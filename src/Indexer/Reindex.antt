-- ===== src/Indexer/Reindex.antt =====
-- backend/src/indexer/indexer.service.ts: the fetch that follows `reindex`.
use stow.Prelude.{ℕ, ◌+◌, ◌<◌, ◌≡◌, refl, ap, ◌∙◌, arith}
use stow.Prelude.Table.{find_one-save_self}
use stow.Indexer.{
  ledger_key, get_checkpoint, set_checkpoint, start_ledger, fetch_and_persist_events, reindex,
}
use stow.Indexer.State.{Checkpoint, RpcPage, IndexerStores, Indexer}

module _ (t : IndexerStores) where
  reindex-checkpoint :
      (from : ℕ) (s : Indexer t) → get_checkpoint t ledger_key (reindex t from s).checkpoints ≡ from
  unfolding reindex get_checkpoint set_checkpoint
  reindex-checkpoint from s =
      let row : Checkpoint = record { key = ledger_key; value = from } in
      rw (find_one-save_self t.checkpoints ledger_key row s.checkpoints refl) refl

  fetch_page :
      (rpc : ℕ → RpcPage) (s : Indexer t)
      → fetch_and_persist_events t rpc s
        ≡ fetch_and_persist_events t
            (λ _. rpc (start_ledger t (get_checkpoint t ledger_key s.checkpoints)))
            s
  unfolding fetch_and_persist_events
  fetch_page rpc s = refl

  -- After a reindex from a ledger above 0, the next fetch does what the RPC's answer for the ledger
  -- after it says: what the RPC has of that ledger itself is not asked for.
  pub reindex-skips :
      (from : ℕ) (rpc : ℕ → RpcPage) (s : Indexer t)
      → 0 < from
      → fetch_and_persist_events t rpc (reindex t from s)
        ≡ fetch_and_persist_events t (λ _. rpc (from + 1)) (reindex t from s)
  reindex-skips from rpc s above =
      let after : Indexer t = reindex t from s in
      let starts : start_ledger t (get_checkpoint t ledger_key after.checkpoints) ≡ from + 1 =
        ap (start_ledger t) (reindex-checkpoint from s) ∙ ground arith in
      fetch_page rpc after ∙ ap (λ l. fetch_and_persist_events t (λ _. rpc l) after) starts
