-- ===== src/Indexer/Refetch.antt =====
-- backend/src/indexer/indexer.service.ts: a page, or an event of it, that is fetched again.
use stow.Prelude.{
  ℕ, suc, ◌+◌, ◌≡◌, ◌≢◌, refl, ap, ◌∙◌, none, some, List, [], ◌∷◌, ◌++◌, length, All, arith, ==_iff,
}
use stow.Indexer.{created_event, Tally, persist_one, persist_all, fetch_and_persist_events}
use stow.Indexer.State.{RpcEvent, RpcPage, IndexerStores, Indexer}
use stow.Indexer.Fetch.{fetch-Stored, persist_all-again, persist_all-keeps}

zero_right : (i : ℕ) → i + 0 ≡ i
zero_right i = omega arith

zero_left : (i : ℕ) → 0 + i ≡ i
zero_left i = omega arith

suc_right : (i n : ℕ) → i + suc n ≡ suc i + n
suc_right i n = omega arith

module _ (t : IndexerStores) where
  -- Where the RPC answers with the same page again, the second fetch persists nothing and leaves
  -- the stored events as they were.
  pub fetch-again :
      (page : RpcPage) (s : Indexer t)
      → let once = (fetch_and_persist_events t (λ _. page) s).1 in
        let again = fetch_and_persist_events t (λ _. page) once in
        (again.0 ≡ 0) × (again.1.events ≡ once.events)
  unfolding fetch_and_persist_events
  fetch-again page s =
      let (rows, persisted) = persist_all-again t 0 page.events _ (fetch-Stored t (λ _. page) s) in
      (persisted, rows)

  -- A place off the page is not written.
  persist_all-other_ledger :
      (l j i : ℕ) (es : List RpcEvent) (y : Tally t)
      → All (λ e. e.ledger ≢ l) es
      → t.events.find_at l j (persist_all t i es y).rows ≡ t.events.find_at l j y.rows
  unfolding persist_all persist_one
  persist_all-other_ledger l j i [] y h = refl
  persist_all-other_ledger l j i (e ∷ es) y h =
      persist_all-other_ledger l j (suc i) es (persist_one t i e y) h.1 ∙ one
    where
      one : t.events.find_at l j (persist_one t i e y).rows ≡ t.events.find_at l j y.rows
      one =
          ground
            (arith, h.0, t.events.find_at-save l j (created_event i e) y.rows, ==_iff l e.ledger)

  persist_all-append :
      (i : ℕ) (es fs : List RpcEvent) (y : Tally t)
      → persist_all t i (es ++ fs) y ≡ persist_all t (i + length es) fs (persist_all t i es y)
  unfolding persist_all
  persist_all-append i [] fs y = rw (zero_right i) refl
  persist_all-append i (e ∷ es) fs y =
      persist_all-append (suc i) es fs (persist_one t i e y) ∙ rw (suc_right i (length es)) refl

  persist_one-fresh :
      (i : ℕ) (e : RpcEvent) (y : Tally t)
      → t.events.find_at e.ledger i y.rows ≡ none
      → t.events.find_at e.ledger i (persist_one t i e y).rows ≡ some (created_event i e)
  unfolding persist_one
  persist_one-fresh i e y h = ground (
    arith,
    t.events.find_at-save e.ledger i (created_event i e) y.rows,
    ==_iff e.ledger e.ledger,
    ==_iff i i,
  )

  persist_one-other_index :
      (i j : ℕ) (e : RpcEvent) (y : Tally t)
      → j ≢ i
      → t.events.find_at e.ledger j (persist_one t i e y).rows ≡ t.events.find_at e.ledger j y.rows
  unfolding persist_one
  persist_one-other_index i j e y ne =
      ground (arith, t.events.find_at-save e.ledger j (created_event i e) y.rows, ==_iff j i)

  persist_all-last :
      (es : List RpcEvent) (e : RpcEvent) (y : Tally t)
      → persist_all t 0 (es ++ e ∷ []) y ≡ persist_one t (length es) e (persist_all t 0 es y)
  unfolding persist_all
  persist_all-last es e y =
      persist_all-append 0 es (e ∷ []) y
      ∙ ap (λ i. persist_one t i e (persist_all t 0 es y)) (zero_left (length es))

  -- An event is stored under its index in the page that brought it. Let it come first behind
  -- events of other ledgers, at an index above 0, and then, fetched from its own ledger on, at the
  -- head of a page; then it is stored twice, as two pending rows, if its ledger had no rows.
  pub shifted_page_duplicates :
      (before : List RpcEvent) (e : RpcEvent) (y : Tally t)
      → before ≢ []
      → All (λ f. f.ledger ≢ e.ledger) before
      → ((i : ℕ) → t.events.find_at e.ledger i y.rows ≡ none)
      → let first = persist_all t 0 (before ++ e ∷ []) y in
        let second = persist_all t 0 (e ∷ []) first in
        (t.events.find_at e.ledger (length before) second.rows
          ≡ some (created_event (length before) e))
        × (t.events.find_at e.ledger 0 second.rows ≡ some (created_event 0 e))
        × (0 ≢ length before)
  unfolding persist_all
  shifted_page_duplicates [] e y nonempty elsewhere fresh = absurd (nonempty refl)
  shifted_page_duplicates (f ∷ fs) e y nonempty elsewhere fresh =
      let behind : Tally t = persist_all t 0 (f ∷ fs) y in
      let n : ℕ = length (f ∷ fs) in
      let free = λ (i : ℕ). persist_all-other_ledger e.ledger i 0 (f ∷ fs) y elsewhere ∙ fresh i in
      let stored = persist_one-fresh n e behind (free n) in
      let head_free = persist_one-other_index n 0 e behind (omega arith) ∙ free 0 in
      rw (persist_all-last (f ∷ fs) e y) (
        persist_all-keeps t 0 (e ∷ []) (persist_one t n e behind) e.ledger n _ stored,
        persist_one-fresh 0 e (persist_one t n e behind) head_free,
        omega arith,
      )
