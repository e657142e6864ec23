-- ===== src/Indexer/Backfill.antt =====
-- backend/src/indexer/indexer.service.ts, `backfillEvents`: stored events fetched again for a range
-- of ledgers.
use stow.Prelude.{
  ℕ, zero, suc, ◌+◌, ◌≡◌, refl, ◌∙◌, inl, inr, none, some, List, [], ◌∷◌, length, select, arith,
  leb, ==_iff, ◌&&◌, max, Bool-cases, if◌then◌else◌,
}
use stow.Indexer.{created_event}
use stow.Indexer.State.{ContractEvent, RpcEvent, RpcPage, IndexerStores, Indexer}

-- `BackfillResponseDto`, without the range; `errors` counts exceptions of the database, which are
-- not modelled.
pub record BackfillResponse : Type 0 where
  pub total_fetched : ℕ
  pub newly_processed : ℕ
  pub already_indexed : ℕ

abbrev pub in_range : ℕ → ℕ → List RpcEvent → List RpcEvent
in_range from to events = select (λ e. leb from e.ledger && leb e.ledger to) events

abbrev pub max_ledger : List RpcEvent → ℕ
max_ledger [] = 0
max_ledger (e ∷ es) = max e.ledger (max_ledger es)

-- The cursor after a page.
abbrev pub next_cursor : ℕ → List RpcEvent → ℕ
next_cursor to [] = to + 1
next_cursor to (e ∷ es) = max_ledger (e ∷ es) + 1

module _ (t : IndexerStores) where
  abbrev pub BackfillState : Type 0
  BackfillState = BackfillResponse × t.events.Store

  unfoldable pub backfill_one : ℕ → RpcEvent → BackfillState → BackfillState
  backfill_one index e (r, rows) = elim (t.events.find_at e.ledger index rows) [
    | some existing ↦ (record r { already_indexed = r.already_indexed + 1 }, rows)
    | none ↦ (
      record r { newly_processed = r.newly_processed + 1 },
      t.events.save (created_event index e) rows,
    )
  ]

  unfoldable pub backfill_page : ℕ → List RpcEvent → BackfillState → BackfillState
  unfolding backfill_one
  backfill_page index [] y = y
  backfill_page index (e ∷ es) y = backfill_page (suc index) es (backfill_one index e y)

  abbrev counted : ℕ → BackfillState → BackfillState
  counted n (r, rows) = (record r { total_fetched = r.total_fetched + n }, rows)

  -- What a page that was fetched for the cursor makes of the rest of the loop.
  abbrev pub with_page :
      ℕ → ℕ → List RpcEvent → BackfillState → (ℕ → BackfillState → BackfillState) → BackfillState
  with_page from to [] y rest = y
  with_page from to (e ∷ es) y rest =
      let page = in_range from to (e ∷ es) in
      rest (next_cursor to page) (backfill_page 0 page (counted (length page) y))

  -- The loop, with the number of pages that are left of `BACKFILL_MAX_PAGES`.
  unfoldable pub backfill_pages : ℕ → (ℕ → RpcPage) → ℕ → ℕ → ℕ → BackfillState → BackfillState
  unfolding backfill_page
  backfill_pages zero rpc from to cursor y = y
  backfill_pages (suc pages) rpc from to cursor y =
      let rest = λ (c : ℕ) (z : BackfillState). backfill_pages pages rpc from to c z in
      if leb cursor to then with_page from to (rpc cursor).events y rest else y

  abbrev pub nothing_fetched : BackfillResponse
  nothing_fetched = record { total_fetched = 0; newly_processed = 0; already_indexed = 0 }

  -- `backfillEvents(fromLedger, toLedger)`
  unfoldable pub backfill_events : (ℕ → RpcPage) → ℕ → ℕ → Indexer t → BackfillResponse × Indexer t
  unfolding backfill_pages
  backfill_events rpc from to s =
      let (r, rows) = backfill_pages 1_000 rpc from to from (nothing_fetched, s.events) in
      (r, record s { events = rows })

  -- The counts add up, and no stored row is changed.
  pub record IsSound (rows : t.events.Store) (y : BackfillState) : Type 0 where
    pub adds_up : y.0.newly_processed + y.0.already_indexed ≡ y.0.total_fetched
    pub keeps :
        (l i : ℕ) (e : ContractEvent)
        → t.events.find_at l i rows ≡ some e
        → t.events.find_at l i y.1 ≡ some e

  abbrev seen : BackfillState → ℕ
  seen (r, rows) = r.newly_processed + r.already_indexed

  backfill_one-counts :
      (i : ℕ) (e : RpcEvent) (y : BackfillState)
      → (seen (backfill_one i e y) ≡ seen y + 1)
        × ((backfill_one i e y).0.total_fetched ≡ y.0.total_fetched)
  unfolding backfill_one
  backfill_one-counts i e (r, rows) = ground arith

  backfill_one-keeps :
      (j : ℕ) (x : RpcEvent) (y : BackfillState) (l i : ℕ) (e : ContractEvent)
      → t.events.find_at l i y.1 ≡ some e
      → t.events.find_at l i (backfill_one j x y).1 ≡ some e
  unfolding backfill_one
  backfill_one-keeps j x (r, rows) l i e h =
      ground
        (arith, t.events.find_at-save l i (created_event j x) rows, ==_iff l x.ledger, ==_iff i j)

  backfill_page-counts :
      (i : ℕ) (es : List RpcEvent) (y : BackfillState)
      → (seen (backfill_page i es y) ≡ seen y + length es)
        × ((backfill_page i es y).0.total_fetched ≡ y.0.total_fetched)
  unfolding backfill_page
  backfill_page-counts i [] y = (omega arith, refl)
  backfill_page-counts i (e ∷ es) y =
      let (one, same) = backfill_one-counts i e y in
      let (rest, kept) = backfill_page-counts (suc i) es (backfill_one i e y) in
      (omega (arith, one, rest), kept ∙ same)

  backfill_page-keeps :
      (j : ℕ) (es : List RpcEvent) (y : BackfillState) (l i : ℕ) (e : ContractEvent)
      → t.events.find_at l i y.1 ≡ some e
      → t.events.find_at l i (backfill_page j es y).1 ≡ some e
  unfolding backfill_page
  backfill_page-keeps j [] y l i e h = h
  backfill_page-keeps j (x ∷ xs) y l i e h =
      backfill_page-keeps (suc j) xs (backfill_one j x y) l i e (backfill_one-keeps j x y l i e h)

  with_page-IsSound :
      (from to : ℕ) (es : List RpcEvent) (rows : t.events.Store) (y : BackfillState)
      (rest : ℕ → BackfillState → BackfillState)
      → ((c : ℕ) (z : BackfillState) → IsSound rows z → IsSound rows (rest c z))
      → IsSound rows y
      → IsSound rows (with_page from to es y rest)
  with_page-IsSound from to [] rows y rest sound h = h
  with_page-IsSound from to (e ∷ es) rows y rest sound h =
      let page = in_range from to (e ∷ es) in
      let z = counted (length page) y in
      let (adds, same) = backfill_page-counts 0 page z in
      sound (next_cursor to page) (backfill_page 0 page z) (record {
        adds_up = omega (arith, adds, same, h.adds_up);
        keeps = λ l i x found. backfill_page-keeps 0 page z l i x (h.keeps l i x found);
      })

  backfill_pages-IsSound :
      (pages : ℕ) (rpc : ℕ → RpcPage) (from to cursor : ℕ) (rows : t.events.Store)
      (y : BackfillState)
      → IsSound rows y
      → IsSound rows (backfill_pages pages rpc from to cursor y)
  unfolding backfill_pages
  backfill_pages-IsSound zero rpc from to cursor rows y h = h
  backfill_pages-IsSound (suc pages) rpc from to cursor rows y h =
      elim (Bool-cases (leb cursor to)) [
        | inr done ↦ rw done h
        | inl more ↦ rw more (
            with_page-IsSound from to (rpc cursor).events rows y
              (λ c z. backfill_pages pages rpc from to c z)
              (λ c z sound. backfill_pages-IsSound pages rpc from to c rows z sound) h)
      ]

  -- Whatever the RPC answers, every event fetched in the range is counted once, as new or as
  -- indexed before, and no stored row is changed.
  pub backfill_events-IsSound :
      (rpc : ℕ → RpcPage) (from to : ℕ) (s : Indexer t)
      → let (r, s') = backfill_events rpc from to s in IsSound s.events (r, s'.events)
  unfolding backfill_events
  backfill_events-IsSound rpc from to s =
      backfill_pages-IsSound 1_000 rpc from to from s.events (nothing_fetched, s.events)
        (record { adds_up = refl; keeps = λ l i e h. h })
