-- ===== src/Listener/Order.antt =====
-- backend/src/soroban/soroban.listener.ts: the order in which a poll applies the events.
use mathlib.Core.List.Permᴰ
use mathlib.Core.List.{Permᴰ}
use stow.Prelude.{ℕ, ◌≤◌, refl, inl, inr, List, [], ◌∷◌, All, arith, leb, Bool-cases}
use stow.Indexer.State.{RpcEvent}
use stow.Listener.{insert_event, sort_events}

-- Each ledger is at most every later one.
abbrev pub IsAscending : List RpcEvent → Type 0
IsAscending [] = Unit
IsAscending (e ∷ es) = All (λ x. e.ledger ≤ x.ledger) es × IsAscending es

All-weaken :
    (m n : ℕ) (es : List RpcEvent) → m ≤ n → All (λ x. n ≤ x.ledger) es → All (λ x. m ≤ x.ledger) es
All-weaken m n [] le h = tt
All-weaken m n (e ∷ es) le h = (omega arith, All-weaken m n es le h.1)

insert_event-All :
    (m : ℕ) (e : RpcEvent) (es : List RpcEvent)
    → m ≤ e.ledger
    → All (λ x. m ≤ x.ledger) es
    → All (λ x. m ≤ x.ledger) (insert_event e es)
insert_event-All m e [] le h = (le, tt)
insert_event-All m e (x ∷ xs) le h = elim (Bool-cases (leb e.ledger x.ledger)) [
  | inl before ↦ rw before (le, h)
  | inr after ↦ rw after (h.0, insert_event-All m e xs le h.1)
]

insert_event-IsAscending :
    (e : RpcEvent) (es : List RpcEvent) → IsAscending es → IsAscending (insert_event e es)
insert_event-IsAscending e [] h = (tt, tt)
insert_event-IsAscending e (x ∷ xs) h = elim (Bool-cases (leb e.ledger x.ledger)) [
  | inl before ↦
      let le : e.ledger ≤ x.ledger = ground arith in
      rw before ((le, All-weaken e.ledger x.ledger xs le h.0), h)
  | inr after ↦
      let le : x.ledger ≤ e.ledger = ground arith in
      rw after (insert_event-All x.ledger e xs le h.0, insert_event-IsAscending e xs h.1)
]

insert_event-Perm : (e : RpcEvent) (es : List RpcEvent) → Permᴰ (insert_event e es) (e ∷ es)
insert_event-Perm e [] = Permᴰ.refl (e ∷ [])
insert_event-Perm e (x ∷ xs) = elim (Bool-cases (leb e.ledger x.ledger)) [
  | inl before ↦ rw before (Permᴰ.refl (e ∷ x ∷ xs))
  | inr after ↦
      rw after (Permᴰ.trans (Permᴰ.cons refl (insert_event-Perm e xs)) (Permᴰ.swap refl refl))
]

pub sort_events-IsAscending : (es : List RpcEvent) → IsAscending (sort_events es)
unfolding sort_events
sort_events-IsAscending [] = tt
sort_events-IsAscending (e ∷ es) =
    insert_event-IsAscending e (sort_events es) (sort_events-IsAscending es)

pub sort_events-Perm : (es : List RpcEvent) → Permᴰ (sort_events es) es
unfolding sort_events
sort_events-Perm [] = Permᴰ.refl []
sort_events-Perm (e ∷ es) =
    Permᴰ.trans (insert_event-Perm e (sort_events es)) (Permᴰ.cons refl (sort_events-Perm es))

insert_event-covered :
    (m : ℕ) (e : RpcEvent) (es : List RpcEvent)
    → All (λ x. x.ledger ≤ m) (insert_event e es)
    → (e.ledger ≤ m) × All (λ x. x.ledger ≤ m) es
insert_event-covered m e [] h = h
insert_event-covered m e (x ∷ xs) h = elim (Bool-cases (leb e.ledger x.ledger)) [
  | inl before ↦ (rw before at h)
  | inr after ↦
      let h' : (x.ledger ≤ m) × All (λ y. y.ledger ≤ m) (insert_event e xs) = (rw after at h) in
      let (le, rest) = insert_event-covered m e xs h'.1 in (le, (h'.0, rest))
]

-- A bound of the sorted events' ledgers is one of the events'.
pub sort_events-covered :
    (m : ℕ) (es : List RpcEvent)
    → All (λ x. x.ledger ≤ m) (sort_events es)
    → All (λ x. x.ledger ≤ m) es
unfolding sort_events
sort_events-covered m [] h = tt
sort_events-covered m (e ∷ es) h =
    let (le, rest) = insert_event-covered m e (sort_events es) h in
    (le, sort_events-covered m es rest)
