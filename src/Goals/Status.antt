-- ===== src/Goals/Status.antt =====
-- backend/src/goals/goals.service.ts: the status of a goal through `markReached` and `claim`.
use stow.Prelude.{ℕ, ◌≡◌, refl, true, false, some, arith}
use stow.Prelude.Result.{ok, err, bad_request}
use stow.Prelude.Table.{find_one-save_self}
use stow.Goals.{
  GoalStatus, reached, claimed, Goal, GoalTable, find_by_on_chain_id, reach, mark_reached, claim_at,
  claim,
}

module _ (t : GoalTable) where
  -- Where the goal exists, a call of `markReached` answers with a reached goal and stores it, and a
  -- repeated call answers "not changed" and writes nothing.
  pub mark_reached_twice :
      (now later id : ℕ) (s : t.Store) (g : Goal)
      → t.find_one id s ≡ some g
      → (h : Goal) × (h.status ≡ reached)
        × (t.find_one id (mark_reached t now id s).1 ≡ some h)
        × (mark_reached t later id (mark_reached t now id s).1
            ≡ (ok (h, false), (mark_reached t now id s).1))
  unfolding mark_reached find_by_on_chain_id reach
  mark_reached_twice now later id s g found = by_status g.status refl
    where
      saved : Goal
      saved = record g { status = reached; reached_at = some now }

      stored : t.find_one id (t.save saved s) ≡ some saved
      stored = find_one-save_self t id saved s (t.find_one-key id s g found)

      by_status :
          (o : GoalStatus)
          → g.status ≡ o
          → (h : Goal) × (h.status ≡ reached)
            × (t.find_one id (mark_reached t now id s).1 ≡ some h)
            × (mark_reached t later id (mark_reached t now id s).1
                ≡ (ok (h, false), (mark_reached t now id s).1))
      by_status reached e = (g, e, ground arith, ground arith)
      by_status _ e = (saved, refl, ground (arith, stored), ground (arith, stored))

  -- A claim goes through exactly on a reached goal; then the goal is stored as claimed, and a second
  -- claim is a bad request that writes nothing.
  pub claim_once :
      (id : ℕ) (s : t.Store) (g h : Goal)
      → t.find_one id s ≡ some g
      → (claim t id s).0 ≡ ok h
      → (g.status ≡ reached)
        × (t.find_one id (claim t id s).1 ≡ some (record g { status = claimed }))
        × (claim t id (claim t id s).1 ≡ (err bad_request, (claim t id s).1))
  unfolding claim find_by_on_chain_id claim_at
  claim_once id s g h found e =
      let k : Goal = record g { status = claimed } in
      let stored = find_one-save_self t id k s (t.find_one-key id s g found) in
      (ground arith, ground (arith, stored), ground (arith, stored))

  -- Marking a claimed goal reached reopens it: it is stored as reached, the call reports a change,
  -- and it can be claimed a second time.
  pub mark_reached-claimed :
      (now id : ℕ) (s : t.Store) (g : Goal)
      → t.find_one id s ≡ some g
      → g.status ≡ claimed
      → let h : Goal = record g { status = reached; reached_at = some now } in
        ((mark_reached t now id s).0 ≡ ok (h, true))
        × ((claim t id (mark_reached t now id s).1).0 ≡ ok (record h { status = claimed }))
  unfolding mark_reached find_by_on_chain_id reach claim claim_at
  mark_reached-claimed now id s g found e =
      let h : Goal = record g { status = reached; reached_at = some now } in
      let stored = find_one-save_self t id h s (t.find_one-key id s g found) in
      (ground arith, ground (arith, stored))
