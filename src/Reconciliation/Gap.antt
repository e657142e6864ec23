-- ===== src/Reconciliation/Gap.antt =====
-- backend/src/indexer/reconciliation.service.ts: the events of a gap (`backfillGap`).
use stow.Prelude.{ℕ, ◌+◌, Option, none, some, List, [], ◌∷◌, ltb, if◌then◌else◌}
use stow.Events.{Topic, EventData}
use stow.Indexer.State.{EventStatus, ContractEvent}
use stow.Reconciliation.State.{
  or_default, SyncStores, EventRecord, EventItem, no_object, object, EventsAnswer, failed, events,
}

-- `extractEventType`
abbrev pub first_topic : Option Topic → Option Topic → Option Topic
first_topic none other = other
first_topic (some topic) other = some topic

abbrev pub extract_event_type : EventRecord → Option Topic
extract_event_type r = first_topic r.type (first_topic r.value_event r.value_event_type)

abbrev pub topic_or_unknown : Option Topic → Topic
topic_or_unknown none = Topic.other_topic 0
topic_or_unknown (some topic) = topic

-- `record.value` where it is an object, else `record.data ?? {}`
abbrev pub contents_of : EventData → Option EventData → Option EventData → EventData
contents_of empty (some value) contents = value
contents_of empty none (some contents) = contents
contents_of empty none none = empty

abbrev pub backfilled_event : EventData → ℕ → EventRecord → ContractEvent
backfilled_event empty ledger r = record {
  ledger = ledger;
  log_index = or_default r.log_index 0;
  event_type = topic_or_unknown (extract_event_type r);
  contents = contents_of empty r.value r.contents;
  tx_hash = r.tx_hash;
  status = EventStatus.pending;
  retry_count = 0;
}

module _ (t : SyncStores) where
  abbrev pub Rows : Type 0
  Rows = t.indexer.events.Store

  -- One item in the loop of `backfillGap`, whose ledger was read: the count and the rows.
  abbrev pub backfill_at : EventData → ℕ → Option ℕ → EventRecord → ℕ × Rows → ℕ × Rows
  backfill_at empty to none r y = y
  backfill_at empty to (some ledger) r (count, rows) =
      if ltb to ledger
      then (count, rows)
      else elim (t.indexer.events.find_at ledger (or_default r.log_index 0) rows) [
        | some existing ↦ (count, rows)
        | none ↦ (count + 1, t.indexer.events.save (backfilled_event empty ledger r) rows)
      ]

  unfoldable pub backfill_one : EventData → ℕ → EventItem → ℕ × Rows → ℕ × Rows
  backfill_one empty to no_object y = y
  backfill_one empty to (object r) y = backfill_at empty to r.ledger r y

  unfoldable pub backfill_all : EventData → ℕ → List EventItem → ℕ × Rows → ℕ × Rows
  unfolding backfill_one
  backfill_all empty to [] y = y
  backfill_all empty to (item ∷ items) y =
      backfill_all empty to items (backfill_one empty to item y)

  -- `backfillGap`, from the answer on: the count of new rows, and the rows. The request asks for
  -- `BACKFILL_BATCH_SIZE` events, 100.
  unfoldable pub backfill_gap : EventData → ℕ → EventsAnswer → Rows → ℕ × Rows
  unfolding backfill_all
  backfill_gap empty to failed rows = (0, rows)
  backfill_gap empty to (events items) rows = backfill_all empty to items (0, rows)
