-- ===== src/Indexer/Handlers/Projected.antt =====
-- backend/src/indexer/indexer.service.ts: what a batch hands to the projections.
use stow.Prelude.{ℕ, ◌≡◌, refl, ap, ◌∙◌, [], ◌∷◌}
use stow.Prelude.Result.{Result, ok, err}
use stow.Events.{Topic}
use stow.Projection
use stow.Indexer.State.{ContractEvent, IndexerStores, Indexer}
use stow.Indexer.Handlers.{
  dispatch, decode_and_apply, record_processed, conclude, apply_event, apply_events,
  process_pending_batch,
}

module _ (t : IndexerStores) where
  record_processed-projections :
      (topic : Topic) (s : Indexer t) → (record_processed t topic s).projections ≡ s.projections
  unfolding record_processed
  record_processed-projections Topic.deposit s = refl
  record_processed-projections Topic.withdraw s = refl
  record_processed-projections _ s = refl

  conclude-projections :
      (e : ContractEvent) (p : Result (Unit {0}) × Indexer t)
      → (conclude t e p).projections ≡ p.1.projections
  unfolding conclude
  conclude-projections e (ok _, s) = record_processed-projections e.event_type _
  conclude-projections e (err x, s) = refl

  -- A batch of one deposit applies it to the projections.
  pub batch_deposit :
      (now : ℕ) (e : ContractEvent) (s : Indexer t)
      → e.event_type ≡ Topic.deposit
      → t.events.find_pending s.events ≡ e ∷ []
      → (process_pending_batch t now s).projections
        ≡ (Projection.apply t.projections now Topic.deposit e.contents s.projections).1
  unfolding process_pending_batch apply_events apply_event decode_and_apply dispatch
  batch_deposit now e s deposit alone =
      ap (λ es. (apply_events t now es s).projections) alone
      ∙ conclude-projections e (decode_and_apply t now e s)
      ∙ ap (λ topic. (dispatch t now topic e s).1.projections) deposit
