-- ===== src/Balances/Coherence.antt =====
-- backend/src/savings/balance.service.ts: the read cache against the table.
use stow.Prelude.{ℕ, ◌≡◌, refl, inl, inr, some, arith, ==_iff, Option-cases}
use stow.Prelude.Result.{Result-cases}
use stow.Prelude.Cache.{Cache}
use stow.Amounts.{Amount, sum_of}
use stow.Balances.{
  Balance, BalanceView, BalanceTable, BalanceState, found_or_new, view_of, save_and_invalidate,
  credit, set_balance, fill, get,
}

module _ (t : BalanceTable) (c : Cache BalanceView) where
  -- Every cached view is the one that the table gives for its account.
  abbrev pub IsCoherent : BalanceState t c → Type 0
  IsCoherent s =
      (k : ℕ) (v : BalanceView) → c.get k s.cached ≡ some v → v ≡ view_of k (t.find_one k s.rows)

  save_and_invalidate-IsCoherent :
      (k : ℕ) (b : Balance) (s : BalanceState t c)
      → b.account ≡ k
      → IsCoherent s
      → IsCoherent (save_and_invalidate t c k b s).1
  unfolding save_and_invalidate
  save_and_invalidate-IsCoherent k b s e h j v found = ground (
    arith,
    h j v,
    ==_iff j k,
    ==_iff j b.account,
    c.get-del j k s.cached,
    t.find_one-save j b s.rows,
  )

  pub found_or_new-account :
      (k : ℕ) (s : BalanceState t c) → (found_or_new k (t.find_one k s.rows)).account ≡ k
  found_or_new-account k s = elim (Option-cases (t.find_one k s.rows)) [
    | inl missing ↦ rw missing refl
    | inr (b, found) ↦ rw found (t.find_one-key k s.rows b found)
  ]

  pub credit-IsCoherent :
      (k : ℕ) (a : Amount) (s : BalanceState t c) → IsCoherent s → IsCoherent (credit t c k a s).1
  unfolding credit save_and_invalidate
  credit-IsCoherent k a s h =
      elim (Result-cases (sum_of (found_or_new k (t.find_one k s.rows)).amount a)) [
        | inl (e, failed) ↦ rw failed h
        | inr (x, summed) ↦
            rw summed (save_and_invalidate-IsCoherent k _ s (found_or_new-account k s) h)
      ]

  pub set_balance-IsCoherent :
      (k : ℕ) (a : Amount) (s : BalanceState t c)
      → IsCoherent s
      → IsCoherent (set_balance t c k a s).1
  unfolding set_balance
  set_balance-IsCoherent k a s h = save_and_invalidate-IsCoherent k _ s (found_or_new-account k s) h

  pub get-IsCoherent : (k : ℕ) (s : BalanceState t c) → IsCoherent s → IsCoherent (get t c k s).1
  unfolding get fill
  get-IsCoherent k s h j v =
      ground (arith, h j v, ==_iff j k, c.get-set j k (view_of k (t.find_one k s.rows)) s.cached)
