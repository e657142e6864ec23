-- ===== src/Indexer/Rows.antt =====
-- backend/src/indexer/indexer.service.ts, `fetchAndPersistEvents`: the rows of the stored events
-- against those that the page describes.
use stow.Prelude.{
  ℕ, suc, ◌≡◌, refl, sym, ap, ◌∙◌, Option, none, some, List, [], ◌∷◌, arith, ◌==◌, ◌&&◌, ==_iff,
  if◌then◌else◌,
}
use stow.Events.{Topic}
use stow.Indexer.{
  event_type_of, created_event, Tally, persist_one, persist_all, fetch_and_persist_events,
}
use stow.Indexer.State.{EventStatus, ContractEvent, RpcEvent, RpcPage, IndexerStores, Indexer}
use stow.Indexer.Fetch.{page_of}

-- The topic that an event is filed under: its first, or the unknown one.
abbrev pub filed_under : List Topic → Topic
filed_under [] = Topic.other_topic 0
filed_under (topic ∷ _) = topic

-- The row that a page has for the place `j` of the ledger `l`, where its first event is at the
-- place `i`: that of the page's event at `j`, if this is of the ledger, as one not yet tried.
abbrev pub page_row : ℕ → ℕ → ℕ → List RpcEvent → Option ContractEvent
page_row l j i [] = none
page_row l j i (e ∷ es) =
    if l == e.ledger && j == i
    then some (record {
      ledger = l;
      log_index = j;
      event_type = filed_under e.topic;
      contents = e.value;
      tx_hash = e.tx_hash;
      status = EventStatus.pending;
      retry_count = 0;
    })
    else page_row l j (suc i) es

abbrev pub or_row : Option ContractEvent → Option ContractEvent → Option ContractEvent
or_row (some r) _ = some r
or_row none o = o

pub or_row-none : (o : Option ContractEvent) → or_row o none ≡ o
or_row-none none = refl
or_row-none (some r) = refl

pub or_row_assoc : (o p q : Option ContractEvent) → or_row (or_row o p) q ≡ or_row o (or_row p q)
or_row_assoc none p q = refl
or_row_assoc (some r) p q = refl

filed_under_lem : (ts : List Topic) → event_type_of ts ≡ filed_under ts
filed_under_lem [] = refl
filed_under_lem (topic ∷ _) = refl

page_row_one :
    (l j i : ℕ) (e : RpcEvent) (es : List RpcEvent)
    → or_row
        (if l == e.ledger && j == i then some (created_event i e) else none)
        (page_row l j (suc i) es)
      ≡ page_row l j i (e ∷ es)
page_row_one l j i e es = ground (arith, filed_under_lem e.topic, ==_iff l e.ledger, ==_iff j i)

module _ (t : IndexerStores) where
  persist_one-find_at :
      (l j i : ℕ) (e : RpcEvent) (y : Tally t)
      → t.events.find_at l j (persist_one t i e y).rows
        ≡ or_row
            (t.events.find_at l j y.rows)
            (if l == e.ledger && j == i then some (created_event i e) else none)
  unfolding persist_one
  persist_one-find_at l j i e y =
      ground
        (arith, t.events.find_at-save l j (created_event i e) y.rows, ==_iff l e.ledger, ==_iff j i)

  persist_all-find_at :
      (l j i : ℕ) (es : List RpcEvent) (y : Tally t)
      → t.events.find_at l j (persist_all t i es y).rows
        ≡ or_row (t.events.find_at l j y.rows) (page_row l j i es)
  unfolding persist_all
  persist_all-find_at l j i [] y = sym (or_row-none (t.events.find_at l j y.rows))
  persist_all-find_at l j i (e ∷ es) y =
      let this = if l == e.ledger && j == i then some (created_event i e) else none in
      persist_all-find_at l j (suc i) es (persist_one t i e y)
      ∙ ap (λ o. or_row o (page_row l j (suc i) es)) (persist_one-find_at l j i e y)
      ∙ or_row_assoc (t.events.find_at l j y.rows) this (page_row l j (suc i) es)
      ∙ ap (or_row (t.events.find_at l j y.rows)) (page_row_one l j i e es)

  -- The rows after a fetch, at every ledger and place: a row that was there is as it was; where
  -- there was none, the page's event of that ledger, if there is one at that place of the page, has
  -- a row of its first topic (the unknown one where it has none), its contents and its transaction,
  -- pending and not yet tried; and there is no other row.
  pub fetch-find_at :
      (rpc : ℕ → RpcPage) (s : Indexer t) (l j : ℕ)
      → t.events.find_at l j (fetch_and_persist_events t rpc s).1.events
        ≡ or_row (t.events.find_at l j s.events) (page_row l j 0 (page_of t rpc s).events)
  unfolding fetch_and_persist_events
  fetch-find_at rpc s l j = persist_all-find_at l j 0 (page_of t rpc s).events _
