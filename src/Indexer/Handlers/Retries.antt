-- ===== src/Indexer/Handlers/Retries.antt =====
-- backend/src/indexer/indexer.service.ts: the retry count of a failed event.
use mathlib.Core.Path.{subst}
use stow.Prelude.{
  ℕ, suc, ◌≡◌, ◌≢◌, refl, sym, ◌∙◌, inl, inr, Bool, true, false, some, List, [], ◌∷◌, All, arith,
  ◌==◌, ◌&&◌, Bool-cases, Option-cases, some-eq,
}
use stow.Prelude.Result.{Result, ok, err}
use stow.Indexer.{
  created_event, Tally, persist_one, persist_all, fetch_and_persist_events, get_checkpoint,
  ledger_key, start_ledger,
}
use stow.Indexer.State.{pending, dlq, ContractEvent, RpcEvent, RpcPage, IndexerStores, Indexer}
use stow.Indexer.Handlers.{
  decode_and_apply, apply_event, apply_events, process_pending_batch, poll_contract_events,
}
use stow.Indexer.Handlers.Process.{conclude_event, apply_event-find_at}

-- A pending event was never tried, and no event is dead-lettered.
abbrev pub IsUntried : ContractEvent → Type 0
IsUntried r = (r.status ≡ pending → r.retry_count ≡ 0) × (r.status ≢ dlq)

module _ (t : IndexerStores) where
  abbrev pub AllUntried : t.events.Store → Type 0
  AllUntried s = (l i : ℕ) (r : ContractEvent) → t.events.find_at l i s ≡ some r → IsUntried r

  conclude_event-IsUntried :
      (e : ContractEvent) (r : Result (Unit {0}))
      → e.retry_count ≡ 0
      → IsUntried (conclude_event t e r)
  unfolding conclude_event
  conclude_event-IsUntried e (ok u) z = (λ p. cc, λ p. cc)
  conclude_event-IsUntried e (err x) z = (ground arith, ground arith)

  apply_event-AllUntried :
      (now : ℕ) (e : ContractEvent) (s : Indexer t)
      → e.retry_count ≡ 0
      → AllUntried s.events
      → AllUntried (apply_event t now e s).events
  apply_event-AllUntried now e s z h l i r found =
      elim (Bool-cases (l == e.ledger && i == e.log_index)) [
        | inl same ↦
            let o : Result (Unit {0}) = (decode_and_apply t now e s).0 in
            let is : some (conclude_event t e o) ≡ some r =
              sym (apply_event-find_at t now e s l i ∙ rw same refl) ∙ found in
            subst IsUntried (some-eq is) (conclude_event-IsUntried e o z)
        | inr other ↦ h l i r (sym (apply_event-find_at t now e s l i ∙ rw other refl) ∙ found)
      ]

  apply_events-AllUntried :
      (now : ℕ) (es : List ContractEvent) (s : Indexer t)
      → All (λ e. e.retry_count ≡ 0) es
      → AllUntried s.events
      → AllUntried (apply_events t now es s).events
  unfolding apply_events
  apply_events-AllUntried now [] s z h = h
  apply_events-AllUntried now (e ∷ es) s z h =
      apply_events-AllUntried now es (apply_event t now e s) z.1
        (apply_event-AllUntried now e s z.0 h)

  never_retried :
      (s : t.events.Store) (es : List ContractEvent)
      → AllUntried s
      → All (λ e. e.status ≡ pending) es
      → All (λ e. t.events.find_at e.ledger e.log_index s ≡ some e) es
      → All (λ e. e.retry_count ≡ 0) es
  never_retried s [] h p f = tt
  never_retried s (e ∷ es) h p f =
      ((h e.ledger e.log_index e f.0).0 p.0, never_retried s es h p.1 f.1)

  batch-AllUntried :
      (now : ℕ) (s : Indexer t)
      → AllUntried s.events
      → AllUntried (process_pending_batch t now s).events
  unfolding process_pending_batch
  batch-AllUntried now s h =
      let es : List ContractEvent = t.events.find_pending s.events in
      apply_events-AllUntried now es s
        (never_retried s.events es h (t.events.find_pending-pending s.events)
          (t.events.find_pending-find_at s.events))
        h

  persist_one-AllUntried :
      (i : ℕ) (e : RpcEvent) (y : Tally t)
      → AllUntried y.rows
      → AllUntried (persist_one t i e y).rows
  unfolding persist_one
  persist_one-AllUntried i e y h l j r found =
      elim (Option-cases (t.events.find_at e.ledger i y.rows)) [
        | inr (old, there) ↦ h l j r (rw (there, persist_one) at found)
        | inl free ↦ elim (Bool-cases (l == e.ledger && j == i)) [
          | inl same ↦
              let is : some (created_event i e) ≡ some r =
                sym (t.events.find_at-save l j (created_event i e) y.rows ∙ rw same refl)
                ∙ (rw (free, persist_one) at found) in
              subst IsUntried (some-eq is) (λ _. refl, λ p. cc)
          | inr other ↦ h l j r (
              sym (t.events.find_at-save l j (created_event i e) y.rows ∙ rw other refl)
              ∙ (rw (free, persist_one) at found))
        ]
      ]

  persist_all-AllUntried :
      (i : ℕ) (es : List RpcEvent) (y : Tally t)
      → AllUntried y.rows
      → AllUntried (persist_all t i es y).rows
  unfolding persist_all
  persist_all-AllUntried i [] y h = h
  persist_all-AllUntried i (e ∷ es) y h =
      persist_all-AllUntried (suc i) es (persist_one t i e y) (persist_one-AllUntried i e y h)

  fetch-AllUntried :
      (rpc : ℕ → RpcPage) (s : Indexer t)
      → AllUntried s.events
      → AllUntried (fetch_and_persist_events t rpc s).1.events
  unfolding fetch_and_persist_events
  fetch-AllUntried rpc s h =
      let last : ℕ = get_checkpoint t ledger_key s.checkpoints in
      persist_all-AllUntried 0 (rpc (start_ledger t last)).events
        (record { rows = s.events; persisted = 0; max_ledger = last }) h

  poll-AllUntried :
      (configured : Bool) (now : ℕ) (rpc : ℕ → RpcPage) (s : Indexer t)
      → AllUntried s.events
      → AllUntried (poll_contract_events t configured now rpc s).events
  unfolding poll_contract_events
  poll-AllUntried false now rpc s h = h
  poll-AllUntried true now rpc s h =
      batch-AllUntried now (fetch_and_persist_events t rpc s).1 (fetch-AllUntried rpc s h)

  -- The polls in order, each with its time and with what the RPC answers during it.
  abbrev pub polls : List (ℕ × (ℕ → RpcPage)) → Indexer t → Indexer t
  polls [] s = s
  polls ((now, rpc) ∷ ps) s = polls ps (poll_contract_events t true now rpc s)

  -- A failed event is never taken up again, so the dead-letter status is never given: from stored
  -- events that are not dead-lettered, and pending only where never tried, no sequence of polls
  -- leads to a dead-lettered event.
  pub dlq_unreachable :
      (ps : List (ℕ × (ℕ → RpcPage))) (s : Indexer t)
      → AllUntried s.events
      → (l i : ℕ) (r : ContractEvent) → t.events.find_at l i (polls ps s).events ≡ some r
      → r.status ≢ dlq
  dlq_unreachable [] s h l i r found = (h l i r found).1
  dlq_unreachable ((now, rpc) ∷ ps) s h l i r found =
      dlq_unreachable ps (poll_contract_events t true now rpc s) (poll-AllUntried true now rpc s h)
        l i r found
