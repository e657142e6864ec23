-- ===== src/Indexer/Fetch.antt =====
-- backend/src/indexer/indexer.service.ts, `fetchAndPersistEvents`: what a fetch does to the stored
-- events and to the checkpoint.
use stow.Prelude.{
  ℕ, suc, ◌≤◌, ◌≡◌, refl, ap, inl, inr, some, List, [], ◌∷◌, All, arith, ltb, ◌==◌, ==_iff, max,
  Option-cases, if◌then◌else◌,
}
use stow.Indexer.{
  created_event, Tally, ledger_key, latest_key, get_checkpoint, set_checkpoint, persist_one,
  persist_all, start_ledger, new_checkpoint, or_last, fetch_and_persist_events,
}
use stow.Indexer.State.{ContractEvent, RpcEvent, RpcPage, IndexerStores, Indexer}

-- A bound of a page's ledgers may be raised.
pub All-le :
    (m n : ℕ) (es : List RpcEvent) → m ≤ n → All (λ e. e.ledger ≤ m) es → All (λ e. e.ledger ≤ n) es
All-le m n [] le h = tt
All-le m n (e ∷ es) le h = (omega arith, All-le m n es le h.1)

module _ (t : IndexerStores) where
  -- A row stands at the place of each event of a page.
  abbrev pub Stored : ℕ → List RpcEvent → t.events.Store → Type 0
  Stored i [] s = Unit
  Stored i (e ∷ es) s =
      ((r : ContractEvent) × (t.events.find_at e.ledger i s ≡ some r)) × Stored (suc i) es s

  persist_one-keeps :
      (i : ℕ) (e : RpcEvent) (y : Tally t) (l j : ℕ) (r : ContractEvent)
      → t.events.find_at l j y.rows ≡ some r
      → t.events.find_at l j (persist_one t i e y).rows ≡ some r
  unfolding persist_one
  persist_one-keeps i e y l j r h =
      ground
        (arith, t.events.find_at-save l j (created_event i e) y.rows, ==_iff l e.ledger, ==_iff j i)

  persist_one-stores :
      (i : ℕ) (e : RpcEvent) (y : Tally t)
      → (r : ContractEvent) × (t.events.find_at e.ledger i (persist_one t i e y).rows ≡ some r)
  unfolding persist_one
  persist_one-stores i e y = elim (Option-cases (t.events.find_at e.ledger i y.rows)) [
    | inl missing ↦ (
      created_event i e,
      ground (
        arith,
        t.events.find_at-save e.ledger i (created_event i e) y.rows,
        ==_iff e.ledger e.ledger,
        ==_iff i i,
      ),
    )
    | inr (r, found) ↦ (r, ground arith)
  ]

  persist_one-ledger :
      (i : ℕ) (e : RpcEvent) (y : Tally t)
      → (y.max_ledger ≤ (persist_one t i e y).max_ledger)
        × (e.ledger ≤ (persist_one t i e y).max_ledger)
  unfolding persist_one
  persist_one-ledger i e y = ground arith

  pub persist_all-keeps :
      (i : ℕ) (es : List RpcEvent) (y : Tally t) (l j : ℕ) (r : ContractEvent)
      → t.events.find_at l j y.rows ≡ some r
      → t.events.find_at l j (persist_all t i es y).rows ≡ some r
  unfolding persist_all
  persist_all-keeps i [] y l j r h = h
  persist_all-keeps i (e ∷ es) y l j r h =
      persist_all-keeps (suc i) es (persist_one t i e y) l j r (persist_one-keeps i e y l j r h)

  persist_all-Stored :
      (i : ℕ) (es : List RpcEvent) (y : Tally t) → Stored i es (persist_all t i es y).rows
  unfolding persist_all
  persist_all-Stored i [] y = tt
  persist_all-Stored i (e ∷ es) y =
      let (r, h) = persist_one-stores i e y in
      (
        (r, persist_all-keeps (suc i) es (persist_one t i e y) e.ledger i r h),
        persist_all-Stored (suc i) es (persist_one t i e y),
      )

  persist_all-ledger :
      (i : ℕ) (es : List RpcEvent) (y : Tally t)
      → (y.max_ledger ≤ (persist_all t i es y).max_ledger)
        × All (λ e. e.ledger ≤ (persist_all t i es y).max_ledger) es
  unfolding persist_all
  persist_all-ledger i [] y = (omega arith, tt)
  persist_all-ledger i (e ∷ es) y =
      let (grows, covers) = persist_one-ledger i e y in
      let (grows', covers') = persist_all-ledger (suc i) es (persist_one t i e y) in
      (omega arith, (omega arith, covers'))

  -- A page that is stored already is persisted again without a write.
  pub persist_all-again :
      (i : ℕ) (es : List RpcEvent) (y : Tally t)
      → Stored i es y.rows
      → ((persist_all t i es y).rows ≡ y.rows) × ((persist_all t i es y).persisted ≡ y.persisted)
  unfolding persist_all persist_one
  persist_all-again i [] y h = (refl, refl)
  persist_all-again i (e ∷ es) y h =
      let (r, found) = h.0 in
      let later =
        persist_all-again (suc i) es
          (record y { max_ledger = if ltb y.max_ledger e.ledger then e.ledger else y.max_ledger })
          h.1 in
      rw (found, persist_all, persist_one) later

  -- The page that a fetch in this state asks for.
  abbrev pub page_of : (ℕ → RpcPage) → Indexer t → RpcPage
  page_of rpc s = rpc (start_ledger t (get_checkpoint t ledger_key s.checkpoints))

  get_checkpoint-set_checkpoint :
      (k j n : ℕ) (s : t.checkpoints.Store)
      → get_checkpoint t k (set_checkpoint t j n s) ≡ (if k == j then n else get_checkpoint t k s)
  unfolding get_checkpoint set_checkpoint
  get_checkpoint-set_checkpoint k j n s =
      ground (arith, t.checkpoints.find_one-save k (record { key = j; value = n }) s)

  -- The checkpoint after both writes, of the latest ledger and of the new checkpoint.
  advance :
      (last safe next : ℕ) (s : t.checkpoints.Store)
      → get_checkpoint t ledger_key s ≡ last
      → let seen = if ltb 0 safe then set_checkpoint t latest_key safe s else s in
        get_checkpoint t ledger_key
          (if ltb last next then set_checkpoint t ledger_key next seen else seen)
        ≡ max last next
  advance last safe next s h = ground (
    arith,
    get_checkpoint-set_checkpoint ledger_key latest_key safe s,
    get_checkpoint-set_checkpoint ledger_key ledger_key next s,
    get_checkpoint-set_checkpoint ledger_key ledger_key next (set_checkpoint t latest_key safe s),
  )

  next_covers :
      (es : List RpcEvent) (last max_ledger safe : ℕ)
      → All (λ e. e.ledger ≤ max_ledger) es
      → All (λ e. e.ledger ≤ max last (new_checkpoint t es last max_ledger safe)) es
  next_covers [] last m safe h = tt
  next_covers (e ∷ es) last m safe h = All-le m (max last (max m safe)) (e ∷ es) (omega arith) h

  -- After a fetch a row stands at the place of each event of the page.
  pub fetch-Stored :
      (rpc : ℕ → RpcPage) (s : Indexer t)
      → Stored 0 (page_of rpc s).events (fetch_and_persist_events t rpc s).1.events
  unfolding fetch_and_persist_events
  fetch-Stored rpc s = persist_all-Stored 0 (page_of rpc s).events _

  -- A fetch never moves the checkpoint back, and moves it to or past every event of the page.
  pub fetch-checkpoint :
      (rpc : ℕ → RpcPage) (s : Indexer t)
      → let after = get_checkpoint t ledger_key (fetch_and_persist_events t rpc s).1.checkpoints in
        (get_checkpoint t ledger_key s.checkpoints ≤ after)
        × All (λ e. e.ledger ≤ after) (page_of rpc s).events
  unfolding fetch_and_persist_events
  fetch-checkpoint rpc s =
      let last : ℕ = get_checkpoint t ledger_key s.checkpoints in
      let page : RpcPage = page_of rpc s in
      let safe : ℕ = or_last page.latest_ledger last in
      let tally : Tally t = record { rows = s.events; persisted = 0; max_ledger = last } in
      let done : Tally t = persist_all t 0 page.events tally in
      let next : ℕ = new_checkpoint t page.events last done.max_ledger safe in
      rw (advance last safe next s.checkpoints refl) (
        ground arith,
        next_covers page.events last done.max_ledger safe
            (persist_all-ledger 0 page.events tally).1,
      )

  latest_covers :
      (es : List RpcEvent) (last max_ledger safe : ℕ)
      → safe ≤ max last (new_checkpoint t es last max_ledger safe)
  latest_covers [] last m safe = omega arith
  latest_covers (e ∷ es) last m safe = omega arith

  pub fetch-latest :
      (rpc : ℕ → RpcPage) (s : Indexer t) (latest : ℕ)
      → (page_of rpc s).latest_ledger ≡ some latest
      → latest ≤ get_checkpoint t ledger_key (fetch_and_persist_events t rpc s).1.checkpoints
  unfolding fetch_and_persist_events
  fetch-latest rpc s latest known =
      let last : ℕ = get_checkpoint t ledger_key s.checkpoints in
      let page : RpcPage = page_of rpc s in
      let safe : ℕ = or_last page.latest_ledger last in
      let tally : Tally t = record { rows = s.events; persisted = 0; max_ledger = last } in
      let done : Tally t = persist_all t 0 page.events tally in
      let next : ℕ = new_checkpoint t page.events last done.max_ledger safe in
      let is : safe ≡ latest = ap (λ o. or_last o last) known in
      rw (advance last safe next s.checkpoints refl, ← is)
        (latest_covers page.events last done.max_ledger safe)
