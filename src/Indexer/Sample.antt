-- ===== src/Indexer/Sample.antt =====
-- Concrete stores for the tests: tables as lists, and the stored events as a function of their
-- place with the list of the places written.
use stow.Prelude.{
  ℕ, ◌≡◌, refl, inl, inr, Bool, true, false, Option, none, some, List, [], ◌∷◌, All, arith, ◌==◌,
  ◌&&◌, Bool-cases, if◌then◌else◌,
}
use stow.Prelude.Table.{list_table}
use stow.Events.{Topic}
use stow.Projection.Sample.{list_stores, sample_db, sample_data}
use stow.Indexer.State.{
  EventStatus, ContractEvent, RpcEvent, RpcPage, EventTable, IndexerStores, Indexer, key_of,
  request_of,
}

abbrev pub Places : Type 0
Places = (ℕ → ℕ → Option ContractEvent) × List (ℕ × ℕ)

abbrev is_pending : EventStatus → Bool
is_pending EventStatus.pending = true
is_pending _ = false

abbrev listed : ℕ → ℕ → ContractEvent → Bool
listed l i e = is_pending e.status && (l == e.ledger && i == e.log_index)

abbrev pending_at : ℕ → ℕ → Option ContractEvent → List ContractEvent → List ContractEvent
pending_at l i none es = es
pending_at l i (some e) es = if listed l i e then e ∷ es else es

abbrev pending_rows : (ℕ → ℕ → Option ContractEvent) → List (ℕ × ℕ) → List ContractEvent
pending_rows f [] = []
pending_rows f ((l, i) ∷ ps) = pending_at l i (f l i) (pending_rows f ps)

pending_at-pending :
    (l i : ℕ) (o : Option ContractEvent) (es : List ContractEvent)
    → All (λ e. e.status ≡ EventStatus.pending) es
    → All (λ e. e.status ≡ EventStatus.pending) (pending_at l i o es)
pending_at-pending l i none es h = h
pending_at-pending l i (some e) es h = elim (Bool-cases (listed l i e)) [
  | inl in_list ↦ let p : e.status ≡ EventStatus.pending = ground arith in rw in_list (p, h)
  | inr out ↦ rw out h
]

pending_at-find_at :
    (f : ℕ → ℕ → Option ContractEvent) (l i : ℕ) (o : Option ContractEvent)
    (es : List ContractEvent)
    → f l i ≡ o
    → All (λ e. f e.ledger e.log_index ≡ some e) es
    → All (λ e. f e.ledger e.log_index ≡ some e) (pending_at l i o es)
pending_at-find_at f l i none es found h = h
pending_at-find_at f l i (some e) es found h = elim (Bool-cases (listed l i e)) [
  | inl in_list ↦ let p : f e.ledger e.log_index ≡ some e = ground arith in rw in_list (p, h)
  | inr out ↦ rw out h
]

pub pending_rows-pending :
    (f : ℕ → ℕ → Option ContractEvent) (ps : List (ℕ × ℕ))
    → All (λ e. e.status ≡ EventStatus.pending) (pending_rows f ps)
pending_rows-pending f [] = tt
pending_rows-pending f ((l, i) ∷ ps) =
    pending_at-pending l i (f l i) (pending_rows f ps) (pending_rows-pending f ps)

pub pending_rows-find_at :
    (f : ℕ → ℕ → Option ContractEvent) (ps : List (ℕ × ℕ))
    → All (λ e. f e.ledger e.log_index ≡ some e) (pending_rows f ps)
pending_rows-find_at f [] = tt
pending_rows-find_at f ((l, i) ∷ ps) =
    pending_at-find_at f l i (f l i) (pending_rows f ps) refl (pending_rows-find_at f ps)

abbrev pub place_table : EventTable
place_table = record {
  Store = Places;
  find_at = λ l i s. s.0 l i;
  save = λ e s. (
    (λ l i. if l == e.ledger && i == e.log_index then some e else s.0 l i),
    (e.ledger, e.log_index) ∷ s.1,
  );
  find_pending = λ s. pending_rows s.0 s.1;
  find_at-save = λ l i e s. refl;
  find_pending-pending = λ s. pending_rows-pending s.0 s.1;
  find_pending-find_at = λ s. pending_rows-find_at s.0 s.1;
}

abbrev pub sample_stores : IndexerStores
sample_stores = record {
  events = place_table;
  checkpoints = list_table key_of;
  withdrawals = list_table request_of;
  projections = list_stores;
}

abbrev pub empty_indexer : Indexer sample_stores
empty_indexer = record {
  events = ((λ l i. none), []);
  checkpoints = [];
  withdrawals = [];
  harvests = [];
  projections = sample_db;
  registered = [];
  events_processed = 0;
  deposits_processed = 0;
  withdrawals_processed = 0;
}

abbrev pub rpc_event : ℕ → Topic → RpcEvent
rpc_event ledger topic = record {
  ledger = ledger;
  topic = topic ∷ [];
  value = sample_data;
  tx_hash = none;
}

-- A deposit in ledger 11 and one that fails, for want of a delta, in ledger 12.
abbrev pub sample_page : RpcPage
sample_page = record {
  events = rpc_event 11 Topic.deposit ∷ rpc_event 12 Topic.harvested ∷ [];
  latest_ledger = some 15;
}

abbrev pub stored_event : ℕ → Topic → ContractEvent
stored_event ledger topic = record {
  ledger = ledger;
  log_index = 0;
  event_type = topic;
  contents = sample_data;
  tx_hash = none;
  status = EventStatus.pending;
  retry_count = 0;
}
