-- ===== src/Balances/Ledger.antt =====
-- backend/src/savings/balance.service.ts against its specification, a ledger that gives each account
-- an amount, behind which neither the rows nor the cache show.
use mathlib.Core.Path.{fun_ext, subst}
use stow.Prelude.{
  ℕ, ◌≡◌, refl, sym, ap, ◌∙◌, inl, inr, Option, none, some, List, arith, ◌==◌, ==_iff, Option-cases,
  if◌then◌else◌,
}
use stow.Prelude.Result.{Result, ok, err, Action, Result-cases, then_do-pure, pure, ◌>>=◌}
use stow.Prelude.Cache.{Cache}
use stow.Prelude.Refine.{serve_all, Refines, serve_all-Refines}
use stow.Amounts.{Amount, sum_of}
use stow.Balances.{
  Balance, BalanceView, BalanceTable, BalanceState, found_or_new, view_of, save_and_invalidate,
  credit, set_balance, fill, get,
}
use stow.Balances.Coherence.{
  IsCoherent, credit-IsCoherent, set_balance-IsCoherent, get-IsCoherent, found_or_new-account,
}

pub data Request : Type 0 where
  credits sets : ℕ → Amount → Request
  reads : ℕ → Request

-- The ledger: each account's amount, '0' where it was never seen.
abbrev pub Book : Type 0
Book = ℕ → Amount

abbrev pub write : ℕ → Amount → Book → Book
write k a book j = if j == k then a else book j

-- A credit of an unreadable amount, or onto one, is an exception and writes nothing.
abbrev pub credited : ℕ → Result Amount → Book → Result Amount × Book
credited k (ok total) book = (ok total, write k total book)
credited k (err e) book = (err e, book)

abbrev pub spec : Request → Book → Result Amount × Book
spec (credits k a) book = credited k (sum_of (book k) a) book
spec (sets k a) book = (ok a, write k a book)
spec (reads k) book = (ok (book k), book)

module _ (t : BalanceTable) (c : Cache BalanceView) where
  -- The amount in each reply of the service.
  abbrev pub serve : Request → Action (BalanceState t c) Amount
  serve (credits k a) = do b ← credit t c k a; pure b.amount
  serve (sets k a) = do b ← set_balance t c k a; pure b.amount
  serve (reads k) = do v ← get t c k; pure v.amount

  abbrev pub book_of : BalanceState t c → Book
  book_of s k = (view_of k (t.find_one k s.rows)).amount

  found_or_new-amount :
      (k : ℕ) (o : Option Balance) → (found_or_new k o).amount ≡ (view_of k o).amount
  found_or_new-amount k none = refl
  found_or_new-amount k (some b) = refl

  book_of-save :
      (k : ℕ) (b : Balance) (s : BalanceState t c)
      → b.account ≡ k
      → book_of (save_and_invalidate t c k b s).1 ≡ write k b.amount (book_of s)
  unfolding save_and_invalidate
  book_of-save k b s e =
      fun_ext λ j. ground (arith, ==_iff j k, ==_iff j b.account, t.find_one-save j b s.rows)

  credits-refines :
      (k : ℕ) (a : Amount) (s : BalanceState t c)
      → (serve (credits k a) s).0 ≡ (spec (credits k a) (book_of s)).0
        × (book_of (serve (credits k a) s).1 ≡ (spec (credits k a) (book_of s)).1)
  unfolding credit save_and_invalidate
  credits-refines k a s =
      rw (← found_or_new-amount k (t.find_one k s.rows))
        (elim (Result-cases (sum_of (found_or_new k (t.find_one k s.rows)).amount a)) [
          | inl (e, failed) ↦ rw failed (refl, refl)
          | inr (x, summed) ↦ rw summed (
            refl,
            book_of-save k (record (found_or_new k (t.find_one k s.rows)) { amount = x }) s
                (found_or_new-account t c k s),
          )
        ])

  -- What a credit leaves in the books.
  pub credit-book :
      (k : ℕ) (a : Amount) (s : BalanceState t c)
      → book_of (credit t c k a s).1 ≡ (credited k (sum_of (book_of s k) a) (book_of s)).1
  credit-book k a s =
      ap book_of (sym (then_do-pure (λ b. b.amount) (credit t c k a s))) ∙ (credits-refines k a s).1

  -- A credit of a readable amount onto one succeeds.
  pub credit-ok :
      (k : ℕ) (a x : Amount) (s : BalanceState t c)
      → sum_of (book_of s k) a ≡ ok x
      → (b : Balance) × ((credit t c k a s).0 ≡ ok b)
  unfolding credit save_and_invalidate
  credit-ok k a x s summed =
      let row = found_or_new k (t.find_one k s.rows) in
      (
        record row { amount = x },
        rw (ap (λ held. sum_of held a) (found_or_new-amount k (t.find_one k s.rows)) ∙ summed) refl,
      )

  sets-refines :
      (k : ℕ) (a : Amount) (s : BalanceState t c)
      → book_of (set_balance t c k a s).1 ≡ write k a (book_of s)
  unfolding set_balance
  sets-refines k a s = book_of-save k _ s (found_or_new-account t c k s)

  reads-refines :
      (k : ℕ) (s : BalanceState t c)
      → IsCoherent t c s
      → (serve (reads k) s).0 ≡ ok (book_of s k) × (book_of (serve (reads k) s).1 ≡ book_of s)
  unfolding get fill
  reads-refines k s h = elim (Option-cases (c.get k s.cached)) [
    | inl missed ↦ rw missed (refl, refl)
    | inr (v, hit) ↦ rw (hit, h k v hit) (refl, refl)
  ]

  serve-IsCoherent :
      (q : Request) (s : BalanceState t c) → IsCoherent t c s → IsCoherent t c (serve q s).1
  serve-IsCoherent (credits k a) s h =
      subst (IsCoherent t c) (sym (then_do-pure (λ b. b.amount) (credit t c k a s)))
        (credit-IsCoherent t c k a s h)
  serve-IsCoherent (sets k a) s h =
      subst (IsCoherent t c) (sym (then_do-pure (λ b. b.amount) (set_balance t c k a s)))
        (set_balance-IsCoherent t c k a s h)
  serve-IsCoherent (reads k) s h =
      subst (IsCoherent t c) (sym (then_do-pure (λ b. b.amount) (get t c k s)))
        (get-IsCoherent t c k s h)

  serve-Refines : Refines (IsCoherent t c) book_of serve spec
  serve-Refines (credits k a) s h =
      let (reply, moved) = credits-refines k a s in
      (serve-IsCoherent (credits k a) s h, reply, moved)
  serve-Refines (sets k a) s h = (
    serve-IsCoherent (sets k a) s h,
    unfold set_balance save_and_invalidate in refl,
    ap book_of (then_do-pure (λ b. b.amount) (set_balance t c k a s)) ∙ sets-refines k a s,
  )
  serve-Refines (reads k) s h =
      let (reply, moved) = reads-refines k s h in (serve-IsCoherent (reads k) s h, reply, moved)

  -- From a coherent cache, whatever requests follow, the service answers each of them as the ledger
  -- does, ends with the ledger's amounts in the table, and the cache is coherent again.
  pub serve_all-refines :
      (qs : List Request) (s : BalanceState t c)
      → IsCoherent t c s
      → IsCoherent t c (serve_all serve qs s).1
        × ((serve_all serve qs s).0 ≡ (serve_all spec qs (book_of s)).0)
        × (book_of (serve_all serve qs s).1 ≡ (serve_all spec qs (book_of s)).1)
  serve_all-refines = serve_all-Refines (IsCoherent t c) book_of serve spec serve-Refines
