-- ===== src/Roundup/Service/Deposits.antt =====
-- backend/src/savings-roundup/services/roundup.service.ts: a batch's deposit of the pending records.
use mathlib.Core.Path.{subst}
use stow.Prelude.{
  ℕ, ◌≡◌, refl, sym, ap, ◌∙◌, inl, inr, some, List, [], ◌∷◌, All, length, ◌==◌, some-eq,
  if◌then◌else◌,
}
use stow.Prelude.Int.{ℤ, pos, ◌+ℤ◌}
use stow.Prelude.Result.{Result, ok, err, not_found, then_do, gets, or_raise, pure, ◌>>=◌}
use stow.Amounts.{decimal, sum_of}
use stow.Balances
use stow.Balances.{Balance, BalanceState}
use stow.Balances.Ledger.{book_of, credit-book, credit-ok}
use stow.Roundup.Records.{
  RoundupConfig, RecordStatus, RoundupRecord, BatchStatus, RoundupBatch, RoundupStores,
  RoundupState,
}
use stow.Roundup.Service.Updates.{update_all-status, update_all-In, update_all-accounts}
use stow.Roundup.Service.{
  total_from, update_all, in_process, deposited, after_credit, simulate_deposit_success, conclude,
  new_batch, process_batch, process_pending, process_records_for_config,
}

module _ (t : RoundupStores) where
  -- The rows after both updates of a batch.
  abbrev settled : ℕ → ℕ → List RoundupRecord → RoundupState t → RoundupState t
  settled fresh now rs s =
      update_all t (deposited t now) rs (update_all t (in_process t fresh) rs s)

  not_pending :
      (fresh now config : ℕ) (s : RoundupState t) (r : RoundupRecord)
      → let rs = t.records.find_pending config s.records in
        r.status ≡ RecordStatus.pending
        → r.config_id ≡ config
        → ¬ (t.records.rows.find_one r.id (settled fresh now rs s).records ≡ some r)
  not_pending fresh now config s r pending mine found =
      let rs = t.records.find_pending config s.records in
      let s' = update_all t (in_process t fresh) rs s in
      elim (update_all-status t (deposited t now) (λ _. refl) RecordStatus.completed (λ _. refl)
        r.id rs s' r found) [
          | inl completed ↦ absurd cc
          | inr between ↦
              elim (update_all-status t (in_process t fresh) (λ _. refl) RecordStatus.processing
                (λ _. refl) r.id rs s r between) [
                  | inl processing ↦ absurd cc
                  | inr before ↦
                      let listed =
                        t.records.find_pending-complete config s.records r before pending mine in
                      let (r', found', completed) =
                        update_all-In t (deposited t now) (λ _. refl) RecordStatus.completed
                          (λ _. refl) rs s' r r listed between in
                      let same : r ≡ r' = some-eq (sym found ∙ found') in absurd cc
                ]
        ]

  none_pending :
      (fresh now config : ℕ) (s : RoundupState t)
      → t.records.find_pending config
          (settled fresh now (t.records.find_pending config s.records) s).records
        ≡ []
  none_pending fresh now config s =
      by_list (t.records.find_pending config after.records)
        (t.records.find_pending-pending config after.records)
    where
      after : RoundupState t
      after = settled fresh now (t.records.find_pending config s.records) s

      by_list :
          (l : List RoundupRecord)
          → All
              (λ r.
                (r.status ≡ RecordStatus.pending)
                × (r.config_id ≡ config)
                × (t.records.rows.find_one r.id after.records ≡ some r))
              l
          → l ≡ []
      by_list [] h = refl
      by_list (r ∷ l) ((pending, mine, found), h) =
          absurd (not_pending fresh now config s r pending mine found)

  after_credit_ok :
      (s : RoundupState t) (p : Result Balance × BalanceState t.balances t.balance_cache)
      (b : Balance)
      → p.0 ≡ ok b
      → after_credit t s p ≡ (ok tt, record s { accounts = p.1 })
  after_credit_ok s (ok x, accounts) b is = refl
  after_credit_ok s (err e, accounts) b is = absurd cc

  -- The deposit of a batch whose amounts can be read.
  simulate_lem :
      (now : ℕ) (first : RoundupRecord) (rs : List RoundupRecord) (s : RoundupState t) (z y : ℤ)
      → total_from (pos 0) (first ∷ rs) ≡ ok z
      → book_of t.balances t.balance_cache s.accounts first.user_id ≡ decimal y
      → let q = update_all t (deposited t now) (first ∷ rs) s in
        simulate_deposit_success t now first rs s ≡ (
          ok tt,
          record q {
            accounts =
                (Balances.credit t.balances t.balance_cache first.user_id (decimal z) q.accounts).1;
          },
        )
  unfolding simulate_deposit_success sum_of
  simulate_lem now first rs s z y total held =
      let q = update_all t (deposited t now) (first ∷ rs) s in
      let kept = update_all-accounts t (deposited t now) (λ _. refl) (first ∷ rs) s in
      let readable : sum_of (book_of t.balances t.balance_cache q.accounts first.user_id)
            (decimal z)
          ≡ ok (decimal (y +ℤ z)) =
        rw (kept, held) refl in
      let (b, credited) =
        credit-ok t.balances t.balance_cache first.user_id (decimal z) (decimal (y +ℤ z)) q.accounts
          readable in
      rw total (
        after_credit_ok q
          (Balances.credit t.balances t.balance_cache first.user_id (decimal z) q.accounts) b
          credited)

  process_batch_lem :
      (fresh now config : ℕ) (s : RoundupState t) (c : RoundupConfig) (first : RoundupRecord)
      (rs : List RoundupRecord) (z : ℤ)
      → t.configs.find_one config s.configs ≡ some c
      → total_from (pos 0) (first ∷ rs) ≡ ok z
      → let batch = new_batch t fresh now (first ∷ rs) z in
        let begun : RoundupState t = record s { batches = t.batches.save batch s.batches } in
        process_batch t fresh now first rs config s
        ≡ conclude t now (first ∷ rs) batch (
            simulate_deposit_success t now first rs
              (update_all t (in_process t fresh) (first ∷ rs) begun))
  unfolding process_batch
  process_batch_lem fresh now config s c first rs z found total = rw (found, total) refl

  -- Where a configuration is stored, its pending records begin with `first` and their amounts add
  -- up to `z`, and the balance of the first record's user is `y`: processing them completes a batch
  -- over the whole sum, that user's balance becomes `y + z` and no other balance changes, and no
  -- record of the configuration is pending any more.
  pub process_records_for_config_lem :
      (fresh now config : ℕ) (s : RoundupState t) (c : RoundupConfig) (first : RoundupRecord)
      (rs : List RoundupRecord) (z y : ℤ)
      → t.configs.find_one config s.configs ≡ some c
      → t.records.find_pending config s.records ≡ first ∷ rs
      → total_from (pos 0) (first ∷ rs) ≡ ok z
      → book_of t.balances t.balance_cache s.accounts first.user_id ≡ decimal y
      → let (done, s') = process_records_for_config t fresh now config s in
        ((b : RoundupBatch) × (done ≡ ok (some b))
          × (b.status ≡ BatchStatus.completed)
          × (b.total_amount ≡ decimal z))
        × ((k : ℕ)
            → book_of t.balances t.balance_cache s'.accounts k ≡ (
                if k == first.user_id
                then decimal (y +ℤ z)
                else book_of t.balances t.balance_cache s.accounts k))
        × (t.records.find_pending config s'.records ≡ [])
  unfolding process_records_for_config sum_of
  process_records_for_config_lem fresh now config s c first rs z y found listed total held =
      let l : List RoundupRecord = first ∷ rs in
      let batch : RoundupBatch = new_batch t fresh now l z in
      let begun : RoundupState t = record s { batches = t.batches.save batch s.batches } in
      let q = update_all t (in_process t fresh) l begun in
      let kept_q = update_all-accounts t (in_process t fresh) (λ _. refl) l begun in
      let kept = update_all-accounts t (deposited t now) (λ _. refl) l q ∙ kept_q in
      let held_q : book_of t.balances t.balance_cache q.accounts first.user_id ≡ decimal y =
        rw kept_q held in
      let begins : process_records_for_config t fresh now config s
          ≡ then_do (λ done. pure (some done)) (process_batch t fresh now first rs config s) =
        ap
          (λ o.
            then_do
              (λ _.
                gets (λ (x : RoundupState t). t.records.find_pending config x.records)
                >>= process_pending t fresh now config)
              (or_raise o not_found s))
          found
        ∙ ap (λ x. process_pending t fresh now config x s) listed in
      let runs =
        begins
        ∙ ap (then_do (λ done. pure (some done))) (
            process_batch_lem fresh now config s c first rs z found total
            ∙ ap (conclude t now l batch) (simulate_lem now first rs q z y total held_q)) in
      rw runs (
        (
          record batch {
            status = BatchStatus.completed;
            processed_at = some now;
            successful_count = length l;
          },
          refl,
          refl,
          refl,
        ),
        (λ k.
            ap
              (λ accounts.
                book_of t.balances t.balance_cache
                  (Balances.credit t.balances t.balance_cache first.user_id (decimal z) accounts).1
                  k)
              kept
            ∙ ap (λ book. book k)
                (credit-book t.balances t.balance_cache first.user_id (decimal z) s.accounts)
            ∙ rw held refl),
        subst (λ x. t.records.find_pending config (settled fresh now x begun).records ≡ []) listed
            (none_pending fresh now config begun),
      )
