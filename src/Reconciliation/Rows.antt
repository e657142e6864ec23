-- ===== src/Reconciliation/Rows.antt =====
-- backend/src/indexer/reconciliation.service.ts, `backfillGap`: the rows of the stored events against
-- those that the answer describes.
use stow.Prelude.{
  ℕ, ◌≡◌, refl, sym, ap, ◌∙◌, Bool, ◌==◌, ◌&&◌, if◌then◌else◌, false, Option, none, some, List, [],
  ◌∷◌, arith, leb, ==_iff,
}
use stow.Events.{Topic, EventData}
use stow.Indexer.State.{EventStatus, ContractEvent}
use stow.Indexer.Rows.{or_row, or_row_assoc, or_row-none}
use stow.Reconciliation.State.{
  SyncStores, EventRecord, EventItem, no_object, object, failed, events, EventsAnswer,
}
use stow.Reconciliation.State.{or_default}
use stow.Reconciliation.Gap.{
  first_topic, topic_or_unknown, contents_of, backfilled_event, Rows, backfill_at, backfill_one,
  backfill_all, backfill_gap,
}

-- The first topic that is given, or the unknown one.
abbrev pub first_of : Option Topic → Option Topic → Option Topic → Topic
first_of (some topic) _ _ = topic
first_of none (some topic) _ = topic
first_of none none (some topic) = topic
first_of none none none = Topic.other_topic 0

abbrev pub value_or_contents : EventData → Option EventData → Option EventData → EventData
value_or_contents empty (some value) _ = value
value_or_contents empty none (some contents) = contents
value_or_contents empty none none = empty

-- The event is of the ledger `l`, which is not beyond `to`, and of the place `i` there.
abbrev pub is_at : ℕ → ℕ → ℕ → Option ℕ → ℕ → Bool
is_at to l i none place = false
is_at to l i (some ledger) place = l == ledger && i == place && leb l to

-- The row that an answer has for the place `i` of the ledger `l`: that of its first event there, as
-- one not yet tried.
abbrev pub answer_row : EventData → ℕ → ℕ → ℕ → List EventItem → Option ContractEvent
answer_row empty to l i [] = none
answer_row empty to l i (no_object ∷ items) = answer_row empty to l i items
answer_row empty to l i (object r ∷ items) =
    if is_at to l i r.ledger (or_default r.log_index 0)
    then some (record {
      ledger = l;
      log_index = i;
      event_type = first_of r.type r.value_event r.value_event_type;
      contents = value_or_contents empty r.value r.contents;
      tx_hash = r.tx_hash;
      status = EventStatus.pending;
      retry_count = 0;
    })
    else answer_row empty to l i items

abbrev pub items_of : EventsAnswer → List EventItem
items_of failed = []
items_of (events items) = items

first_of_lem :
    (a b c : Option Topic) → topic_or_unknown (first_topic a (first_topic b c)) ≡ first_of a b c
first_of_lem (some x) b c = refl
first_of_lem none (some x) c = refl
first_of_lem none none (some x) = refl
first_of_lem none none none = refl

value_or_contents_lem :
    (empty : EventData) (v c : Option EventData)
    → contents_of empty v c ≡ value_or_contents empty v c
value_or_contents_lem empty (some v) c = refl
value_or_contents_lem empty none (some c) = refl
value_or_contents_lem empty none none = refl

-- What one item adds for the place.
abbrev added : EventData → ℕ → ℕ → ℕ → Option ℕ → EventRecord → Option ContractEvent
added empty to l i none r = none
added empty to l i (some ledger) r =
    if l == ledger && i == or_default r.log_index 0 && leb l to
    then some (backfilled_event empty ledger r)
    else none

answer_row_one :
    (empty : EventData) (to l i : ℕ) (ledger : Option ℕ) (r : EventRecord)
    (rest : Option ContractEvent)
    → or_row (added empty to l i ledger r) rest ≡ (
        if is_at to l i ledger (or_default r.log_index 0)
        then some (record {
          ledger = l;
          log_index = i;
          event_type = first_of r.type r.value_event r.value_event_type;
          contents = value_or_contents empty r.value r.contents;
          tx_hash = r.tx_hash;
          status = EventStatus.pending;
          retry_count = 0;
        })
        else rest)
answer_row_one empty to l i none r rest = refl
answer_row_one empty to l i (some ledger) r rest = ground (
  arith,
  first_of_lem r.type r.value_event r.value_event_type,
  value_or_contents_lem empty r.value r.contents,
  ==_iff l ledger,
  ==_iff i (or_default r.log_index 0),
)

module _ (t : SyncStores) (empty : EventData) (to : ℕ) where
  backfill_at-find_at :
      (l i : ℕ) (ledger : Option ℕ) (r : EventRecord) (y : ℕ × Rows t)
      → t.indexer.events.find_at l i (backfill_at t empty to ledger r y).1
        ≡ or_row (t.indexer.events.find_at l i y.1) (added empty to l i ledger r)
  backfill_at-find_at l i none r y = sym (or_row-none (t.indexer.events.find_at l i y.1))
  backfill_at-find_at l i (some ledger) r (count, rows) = ground (
    arith,
    t.indexer.events.find_at-save l i (backfilled_event empty ledger r) rows,
    ==_iff l ledger,
    ==_iff i (or_default r.log_index 0),
  )

  backfill_all-find_at :
      (l i : ℕ) (items : List EventItem) (y : ℕ × Rows t)
      → t.indexer.events.find_at l i (backfill_all t empty to items y).1
        ≡ or_row (t.indexer.events.find_at l i y.1) (answer_row empty to l i items)
  unfolding backfill_all backfill_one
  backfill_all-find_at l i [] y = sym (or_row-none (t.indexer.events.find_at l i y.1))
  backfill_all-find_at l i (no_object ∷ items) y = backfill_all-find_at l i items y
  backfill_all-find_at l i (object r ∷ items) y =
      let before = t.indexer.events.find_at l i y.1 in
      let rest = answer_row empty to l i items in
      backfill_all-find_at l i items (backfill_at t empty to r.ledger r y)
      ∙ ap (λ o. or_row o rest) (backfill_at-find_at l i r.ledger r y)
      ∙ or_row_assoc before (added empty to l i r.ledger r) rest
      ∙ ap (or_row before) (answer_row_one empty to l i r.ledger r rest)

  -- The rows after a backfill, at every ledger and place, whatever the RPC answers: a row that was
  -- there is as it was; where there was none, the answer's first event of that ledger and place
  -- (0 for an event that gives no place), if it has one and the ledger is not beyond the last one
  -- asked for, has a row of the first topic that it gives (the unknown one where it gives none), its
  -- contents (empty where it gives none) and its transaction, pending and not yet tried; and there
  -- is no other row. Where the request fails, the rows are as they were.
  pub backfill_gap-find_at :
      (answer : EventsAnswer) (rows : Rows t) (l i : ℕ)
      → t.indexer.events.find_at l i (backfill_gap t empty to answer rows).1
        ≡ or_row (t.indexer.events.find_at l i rows) (answer_row empty to l i (items_of answer))
  unfolding backfill_gap
  backfill_gap-find_at failed rows l i = sym (or_row-none (t.indexer.events.find_at l i rows))
  backfill_gap-find_at (events items) rows l i = backfill_all-find_at l i items (0, rows)
