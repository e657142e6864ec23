-- ===== src/Indexer/Handlers/Process.antt =====
-- backend/src/indexer/indexer.service.ts: the status of the stored events through a batch.
use stow.Prelude.{
  ℕ, ◌≡◌, ◌≢◌, refl, ap, ◌∙◌, inl, inr, some, List, [], ◌∷◌, All, arith, ◌==◌, ==_iff, ◌&&◌,
  Bool-cases, if◌then◌else◌,
}
use stow.Prelude.Result.{Result, ok, err}
use stow.Events.{Topic}
use stow.Indexer.State.{pending, ContractEvent, IndexerStores, Indexer}
use stow.Indexer.Handlers.{
  dispatch, decode_and_apply, processed_event, failed_event, record_processed, conclude,
  apply_event, apply_events, process_pending_batch,
}

module _ (t : IndexerStores) where
  -- The handlers write no stored event.
  dispatch-events :
      (now : ℕ) (topic : Topic) (e : ContractEvent) (s : Indexer t)
      → (dispatch t now topic e s).1.events ≡ s.events
  unfolding dispatch
  dispatch-events now Topic.harvested e s = ground arith
  dispatch-events now Topic.withdraw_claimed e s = ground arith
  dispatch-events now Topic.withdraw_requested e s = ground arith
  dispatch-events now Topic.withdraw_cancelled e s = ground arith
  dispatch-events now _ e s = refl

  decode_and_apply-events :
      (now : ℕ) (e : ContractEvent) (s : Indexer t)
      → (decode_and_apply t now e s).1.events ≡ s.events
  unfolding decode_and_apply
  decode_and_apply-events now e s = dispatch-events now e.event_type e s

  unfoldable pub conclude_event : ContractEvent → Result (Unit {0}) → ContractEvent
  conclude_event e (ok _) = processed_event t e
  conclude_event e (err _) = failed_event t e

  record_processed-events :
      (topic : Topic) (s : Indexer t) → (record_processed t topic s).events ≡ s.events
  unfolding record_processed
  record_processed-events Topic.deposit s = refl
  record_processed-events _ s = refl

  conclude-events :
      (e : ContractEvent) (r : Result (Unit {0})) (s : Indexer t)
      → (conclude t e (r, s)).events ≡ t.events.save (conclude_event e r) s.events
  unfolding conclude conclude_event
  conclude-events e (ok u) s = record_processed-events e.event_type _
  conclude-events e (err x) s = refl

  -- What applying an event leaves in the events: its own row, concluded.
  apply_event-events :
      (now : ℕ) (e : ContractEvent) (s : Indexer t)
      → (apply_event t now e s).events
        ≡ t.events.save (conclude_event e (decode_and_apply t now e s).0) s.events
  unfolding apply_event
  apply_event-events now e s =
      conclude-events e (decode_and_apply t now e s).0 (decode_and_apply t now e s).1
      ∙ ap (t.events.save (conclude_event e (decode_and_apply t now e s).0))
          (decode_and_apply-events now e s)

  conclude_event-place :
      (e : ContractEvent) (r : Result (Unit {0}))
      → ((conclude_event e r).ledger ≡ e.ledger)
        × ((conclude_event e r).log_index ≡ e.log_index)
        × ((conclude_event e r).status ≢ pending)
  unfolding conclude_event
  conclude_event-place e (ok u) = (refl, refl, λ q. cc)
  conclude_event-place e (err x) = (refl, refl, ground arith)

  -- After an event is applied its row is concluded, and every other row is as before.
  pub apply_event-find_at :
      (now : ℕ) (e : ContractEvent) (s : Indexer t) (l i : ℕ)
      → t.events.find_at l i (apply_event t now e s).events ≡ (
          if l == e.ledger && i == e.log_index
          then some (conclude_event e (decode_and_apply t now e s).0)
          else t.events.find_at l i s.events)
  apply_event-find_at now e s l i =
      let r : Result (Unit {0}) = (decode_and_apply t now e s).0 in
      let (same_ledger, same_index, _) = conclude_event-place e r in
      ap (t.events.find_at l i) (apply_event-events now e s)
      ∙ t.events.find_at-save l i (conclude_event e r) s.events
      ∙ rw (same_ledger, same_index) refl

  abbrev pub IsSettledAt : ℕ → ℕ → t.events.Store → Type 0
  IsSettledAt l i s = (r : ContractEvent) × (t.events.find_at l i s ≡ some r) × (r.status ≢ pending)

  apply_event-settles :
      (now : ℕ) (e : ContractEvent) (s : Indexer t)
      → IsSettledAt e.ledger e.log_index (apply_event t now e s).events
  apply_event-settles now e s =
      let r : Result (Unit {0}) = (decode_and_apply t now e s).0 in
      (
        conclude_event e r,
        apply_event-find_at now e s e.ledger e.log_index
            ∙ ground (arith, ==_iff e.ledger e.ledger, ==_iff e.log_index e.log_index),
        (conclude_event-place e r).2,
      )

  apply_event-keeps_settled :
      (now : ℕ) (e : ContractEvent) (s : Indexer t) (l i : ℕ)
      → IsSettledAt l i s.events
      → IsSettledAt l i (apply_event t now e s).events
  apply_event-keeps_settled now e s l i (r, found, ne) =
      elim (Bool-cases (l == e.ledger && i == e.log_index)) [
        | inl same ↦
            let o : Result (Unit {0}) = (decode_and_apply t now e s).0 in
            (
              conclude_event e o,
              apply_event-find_at now e s l i ∙ rw same refl,
              (conclude_event-place e o).2,
            )
        | inr other ↦ (r, apply_event-find_at now e s l i ∙ rw other found, ne)
      ]

  apply_events-keeps_settled :
      (now : ℕ) (es : List ContractEvent) (s : Indexer t) (l i : ℕ)
      → IsSettledAt l i s.events
      → IsSettledAt l i (apply_events t now es s).events
  unfolding apply_events
  apply_events-keeps_settled now [] s l i h = h
  apply_events-keeps_settled now (e ∷ es) s l i h =
      apply_events-keeps_settled now es (apply_event t now e s) l i
        (apply_event-keeps_settled now e s l i h)

  apply_events-settles :
      (now : ℕ) (es : List ContractEvent) (s : Indexer t)
      → All (λ e. IsSettledAt e.ledger e.log_index (apply_events t now es s).events) es
  unfolding apply_events
  apply_events-settles now [] s = tt
  apply_events-settles now (e ∷ es) s = (
    apply_events-keeps_settled now es (apply_event t now e s) e.ledger e.log_index
        (apply_event-settles now e s),
    apply_events-settles now es (apply_event t now e s),
  )

  -- After a batch no event that the batch had found pending is pending: each was processed, or
  -- failed, whatever its handler did.
  pub batch_settles :
      (now : ℕ) (s : Indexer t)
      → All
          (λ e. IsSettledAt e.ledger e.log_index (process_pending_batch t now s).events)
          (t.events.find_pending s.events)
  unfolding process_pending_batch
  batch_settles now s = apply_events-settles now (t.events.find_pending s.events) s
