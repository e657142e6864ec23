-- ===== src/Projection/Doubling.antt =====
-- backend/src/savings-projection/savings-projection.service.ts: a second delivery of the two topics
-- that add an amount.
use stow.Prelude.{ℕ, ◌≡◌, ◌≢◌, refl, sym, ap, ◌∙◌, ==_refl}
use stow.Prelude.Int.{ℤ, pos, ◌+ℤ◌, int_laws, pos_part, neg_part}
use stow.Prelude.Result.{then_do-pure}
use stow.Amounts.{Amount, decimal, sum_of}
use stow.Events.{Topic, EventData, text, amount_text}
use stow.Balances
use stow.Balances.Ledger.{book_of, credit-book}
use stow.Projection.State.{Stores, Db, on_balances}
use stow.Projection.{apply, account_field}
use stow.Projection.Replay.{Same}

sum_unchanged : (y x : ℤ) → decimal (y +ℤ x) ≡ decimal y → x ≡ pos 0
sum_unchanged y x e =
    let same : y +ℤ x ≡ y = cc in omega (int_laws, ap pos_part same, ap neg_part same)

module _ (b : Stores) where
  -- The amount that the projections hold for an account.
  abbrev pub amount_of : ℕ → Db b → Amount
  amount_of k d = book_of b.balances b.balance_cache d.accounts k

  -- A deposit adds its amount to what is held.
  pub deposit_lem :
      (now : ℕ) (e : EventData) (d : Db b) (k : ℕ) (z x : ℤ)
      → text (account_field e) ≡ k
      → amount_text e.amount ≡ decimal x
      → amount_of k d ≡ decimal z
      → amount_of k (apply b now Topic.deposit e d).1 ≡ decimal (z +ℤ x)
  unfolding apply sum_of
  deposit_lem now e d k z x account amount held =
      ap (amount_of k) (
        then_do-pure (λ _. tt)
          (on_balances b
            (Balances.credit b.balances b.balance_cache (text (account_field e))
              (amount_text e.amount))
            d))
      ∙ rw (account, amount)
          (ap (λ book. book k) (credit-book b.balances b.balance_cache k (decimal x) d.accounts)
            ∙ rw (held, ==_refl k) refl)

  -- A deposit of a readable amount other than 0, delivered twice, is credited twice: the reads
  -- after the second delivery are not those after the first.
  pub deposit_doubles :
      (now later : ℕ) (e : EventData) (d : Db b) (z x : ℤ)
      → amount_text e.amount ≡ decimal x
      → x ≢ pos 0
      → amount_of (text (account_field e)) d ≡ decimal z
      → let once = (apply b now Topic.deposit e d).1 in
        let twice = (apply b later Topic.deposit e once).1 in
        (amount_of (text (account_field e)) twice ≡ decimal (z +ℤ x +ℤ x)) × ¬ (Same b twice once)
  deposit_doubles now later e d z x amount nonzero held =
      let k : ℕ = text (account_field e) in
      let first = deposit_lem now e d k z x refl amount held in
      let second =
        deposit_lem later e (apply b now Topic.deposit e d).1 k (z +ℤ x) x refl amount first in
      (
        second,
        λ same. nonzero (
            sum_unchanged (z +ℤ x) x
              (sym second ∙ ap (λ o. (Balances.view_of k o).amount) (same.balances k) ∙ first)),
      )
