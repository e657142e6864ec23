-- ===== src/Soroban/Normal.antt =====
-- backend/src/soroban/soroban.service.ts: an event of the RPC's JSON (`normalizeEvent`).
use stow.Prelude.{ℕ, Option, none, some, List, [], ◌∷◌}
use stow.Events.{Topic, EventData}
use stow.Indexer.State.{RpcEvent}

-- An item of an event's topic list, and an event's value, as the RPC's JSON has them.
pub data TopicItem : Type 0 where
  is_text is_symbol is_value : Topic → TopicItem
  is_other : TopicItem

pub data RawValue : Type 0 where
  is_object : EventData → RawValue
  is_no_object : RawValue

pub record RawEvent : Type 0 where
  pub id : Option ℕ
  -- the identifier that is made up where there is none
  pub made_up : ℕ
  -- what `toNumber` reads
  pub ledger : Option ℕ
  pub topic : List TopicItem
  pub value : RawValue
  pub tx_hash : Option ℕ

pub record SorobanEvent : Type 0 where
  pub id : ℕ
  pub event : RpcEvent

-- `toStringArray`
abbrev pub topics_of : List TopicItem → List Topic
topics_of [] = []
topics_of (is_text topic ∷ items) = topic ∷ topics_of items
topics_of (is_symbol topic ∷ items) = topic ∷ topics_of items
topics_of (is_value topic ∷ items) = topic ∷ topics_of items
topics_of (is_other ∷ items) = topics_of items

-- `toRecord`; a value that is no object has none of the properties that are read.
abbrev pub record_of : EventData → RawValue → EventData
record_of empty (is_object d) = d
record_of empty is_no_object = empty

abbrev pub id_or : ℕ → Option ℕ → ℕ
id_or made_up none = made_up
id_or made_up (some id) = id

-- `normalizeEvent`; `empty` is the record without properties.
unfoldable pub normalize_event : EventData → RawEvent → Option SorobanEvent
normalize_event empty raw = elim (raw.ledger) [
  | none ↦ none
  | some ledger ↦ some (record {
    id = id_or raw.made_up raw.id;
    event = record {
      ledger = ledger;
      topic = topics_of raw.topic;
      value = record_of empty raw.value;
      tx_hash = raw.tx_hash;
    };
  })
]

abbrev pub prepend : {A : Type 0} → Option A → List A → List A
prepend none xs = xs
prepend (some x) xs = x ∷ xs

-- `map(normalizeEvent).filter(e => e !== null)`
unfoldable pub normalize_all : EventData → List RawEvent → List SorobanEvent
unfolding normalize_event
normalize_all empty [] = []
normalize_all empty (raw ∷ raws) = prepend (normalize_event empty raw) (normalize_all empty raws)
