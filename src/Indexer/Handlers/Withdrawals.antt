-- ===== src/Indexer/Handlers/Withdrawals.antt =====
-- backend/src/indexer/indexer.service.ts: the pending withdrawals of the yield adapter, through the
-- events about them.
use stow.Prelude.{ℕ, ◌≡◌, refl, ap, ◌∙◌, none, some, arith}
use stow.Prelude.Result.{Result, ok, err}
use stow.Prelude.Table.{find_one-save_self}
use stow.Events.{Topic, EventData, text, amount_text, to_date}
use stow.Indexer.State.{ContractEvent, PendingWithdrawal, WithdrawalStatus, IndexerStores, Indexer}
use stow.Indexer.Handlers.{
  dispatch, decode_and_apply, apply_withdraw_requested, apply_withdraw_cancelled, record_processed,
  conclude, apply_event, request_id_of,
}

module _ (t : IndexerStores) where
  record_processed-withdrawals :
      (topic : Topic) (s : Indexer t) → (record_processed t topic s).withdrawals ≡ s.withdrawals
  unfolding record_processed
  record_processed-withdrawals Topic.deposit s = refl
  record_processed-withdrawals _ s = refl

  conclude-withdrawals :
      (e : ContractEvent) (r : Result (Unit {0})) (s : Indexer t)
      → (conclude t e (r, s)).withdrawals ≡ s.withdrawals
  unfolding conclude
  conclude-withdrawals e (ok u) s = record_processed-withdrawals e.event_type _
  conclude-withdrawals e (err x) s = refl

  apply_event-withdrawals :
      (now : ℕ) (topic : Topic) (e : ContractEvent) (s : Indexer t)
      → e.event_type ≡ topic
      → (apply_event t now e s).withdrawals ≡ (dispatch t now topic e s).1.withdrawals
  unfolding apply_event decode_and_apply
  apply_event-withdrawals now topic e s is =
      conclude-withdrawals e _ _ ∙ ap (λ o. (dispatch t now o e s).1.withdrawals) is

  -- The row that `withdraw_requested` creates.
  abbrev pub requested : EventData → PendingWithdrawal
  requested d = record {
    request_id = request_id_of d;
    owner = text d.owner;
    shares = amount_text d.shares;
    claimable_at = to_date d.claimable_at;
    status = WithdrawalStatus.pending;
    cancelled_at = none;
  }

  requested-stored :
      (now : ℕ) (e : ContractEvent) (s : Indexer t)
      → e.event_type ≡ Topic.withdraw_requested
      → t.withdrawals.find_one (request_id_of e.contents) s.withdrawals ≡ none
      → t.withdrawals.find_one (request_id_of e.contents) (apply_event t now e s).withdrawals
        ≡ some (requested e.contents)
  unfolding dispatch
  requested-stored now e s is free =
      ap (t.withdrawals.find_one (request_id_of e.contents))
        (apply_event-withdrawals now Topic.withdraw_requested e s is)
      ∙ rw (free, apply_withdraw_requested)
          (find_one-save_self t.withdrawals (request_id_of e.contents) (requested e.contents)
            s.withdrawals refl)

  claimed-withdrawals :
      (now : ℕ) (e : ContractEvent) (s : Indexer t)
      → e.event_type ≡ Topic.withdraw_claimed
      → (apply_event t now e s).withdrawals ≡ s.withdrawals
  unfolding dispatch
  claimed-withdrawals now e s is =
      apply_event-withdrawals now Topic.withdraw_claimed e s is ∙ ground arith

  requested-known :
      (now : ℕ) (e : ContractEvent) (s : Indexer t) (w : PendingWithdrawal)
      → e.event_type ≡ Topic.withdraw_requested
      → t.withdrawals.find_one (request_id_of e.contents) s.withdrawals ≡ some w
      → (apply_event t now e s).withdrawals ≡ s.withdrawals
  unfolding dispatch
  requested-known now e s w is known =
      apply_event-withdrawals now Topic.withdraw_requested e s is
      ∙ rw (known, apply_withdraw_requested) refl

  cancelled-stored :
      (now k : ℕ) (e : ContractEvent) (s : Indexer t) (w : PendingWithdrawal)
      → e.event_type ≡ Topic.withdraw_cancelled
      → request_id_of e.contents ≡ k
      → t.withdrawals.find_one k s.withdrawals ≡ some w
      → t.withdrawals.find_one k (apply_event t now e s).withdrawals
        ≡ some (record w { status = WithdrawalStatus.cancelled; cancelled_at = some now })
  unfolding dispatch
  cancelled-stored now k e s w is same known =
      ap (t.withdrawals.find_one k) (apply_event-withdrawals now Topic.withdraw_cancelled e s is)
      ∙ rw (same, known, apply_withdraw_cancelled)
          (find_one-save_self t.withdrawals k
            (record w { status = WithdrawalStatus.cancelled; cancelled_at = some now })
            s.withdrawals (t.withdrawals.find_one-key k s.withdrawals w known))

  -- The claim of a withdrawal resolves only the in-memory map, so a withdrawal that was requested
  -- and then claimed is still listed as pending, whatever else the claim says.
  pub claimed_stays_pending :
      (now later : ℕ) (request claim : ContractEvent) (s : Indexer t)
      → request.event_type ≡ Topic.withdraw_requested
      → claim.event_type ≡ Topic.withdraw_claimed
      → t.withdrawals.find_one (request_id_of request.contents) s.withdrawals ≡ none
      → (w : PendingWithdrawal) × (t.withdrawals.find_one
            (request_id_of request.contents)
            (apply_event t later claim (apply_event t now request s)).withdrawals
          ≡ some w)
        × (w.status ≡ WithdrawalStatus.pending)
  claimed_stays_pending now later request claim s is is' free = (
    requested request.contents,
    ap (t.withdrawals.find_one (request_id_of request.contents))
          (claimed-withdrawals later claim (apply_event t now request s) is')
        ∙ requested-stored now request s is free,
    refl,
  )

  -- A request, its cancellation and the request again, as a replay brings it: the withdrawal is
  -- stored as cancelled at the time of the cancellation, with the request's other fields.
  pub cancelled_stays_cancelled :
      (now later again : ℕ) (request cancel : ContractEvent) (s : Indexer t)
      → request.event_type ≡ Topic.withdraw_requested
      → cancel.event_type ≡ Topic.withdraw_cancelled
      → request_id_of cancel.contents ≡ request_id_of request.contents
      → t.withdrawals.find_one (request_id_of request.contents) s.withdrawals ≡ none
      → let cancelled = apply_event t later cancel (apply_event t now request s) in
        t.withdrawals.find_one
          (request_id_of request.contents)
          (apply_event t again request cancelled).withdrawals
        ≡ some (record (requested request.contents) {
          status = WithdrawalStatus.cancelled;
          cancelled_at = some later;
        })
  cancelled_stays_cancelled now later again request cancel s is is' same free =
      let k : ℕ = request_id_of request.contents in
      let open_request = apply_event t now request s in
      let stored =
        cancelled-stored later k cancel open_request (requested request.contents) is' same
          (requested-stored now request s is free) in
      ap (t.withdrawals.find_one k)
        (requested-known again request (apply_event t later cancel open_request) _ is stored)
      ∙ stored
