-- ===== src/Groups/Shares.antt =====
-- backend/src/savings/groups.service.ts: the membership calls and the table.
use stow.Prelude.{
  ℕ, ◌≡◌, refl, ap, ◌∙◌, inl, inr, Option, some, List, [], ◌∷◌, arith, ◌==◌, ==_iff, Bool-cases,
  Option-cases, if◌then◌else◌,
}
use stow.Prelude.Result.{ok}
use stow.Groups.{Group, GroupTable}
use stow.Groups.Members.{
  GroupMember, MemberTable, Memberships, found_or_joined, find_group, add_member, set_share,
  set_all, set_shares,
}

-- The row of an address after the entries: its last share, or the row that was there.
abbrev pub assigned : ℕ → List (ℕ × ℕ) → ℕ → Option GroupMember → Option GroupMember
assigned g [] a row = row
assigned g ((b, share) ∷ xs) a row =
    assigned g xs a
      (if a == b then some (record { group = g; address = a; share_bps = share }) else row)

module _ (t : GroupTable) (ms : MemberTable) where
  found_row :
      (g a share : ℕ) (s : ms.Store)
      → let m : GroupMember = record (found_or_joined g a (ms.find_one g a s)) {
        share_bps = share;
      } in
        m ≡ record { group = g; address = a; share_bps = share }
  found_row g a share s = elim (Option-cases (ms.find_one g a s)) [
    | inl missing ↦ rw missing refl
    | inr (m, found) ↦ let key = ms.find_one-key g a s m found in rw found (ground arith)
  ]

  set_share_lem :
      (id : ℕ) (x : ℕ × ℕ) (s : Memberships t ms) (g a : ℕ)
      → ms.find_one g a (set_share t ms id x s).members ≡ (
          if g == id
          then assigned id (x ∷ []) a (ms.find_one g a s.members)
          else ms.find_one g a s.members)
  set_share_lem id (b, share) s g a =
      ap (λ m. ms.find_one g a (ms.save m s.members)) (found_row id b share s.members)
      ∙ ground (
        arith,
        ms.find_one-save g a (record { group = id; address = b; share_bps = share }) s.members,
        ==_iff a b,
      )

  set_all_lem :
      (id : ℕ) (xs : List (ℕ × ℕ)) (s : Memberships t ms) (g a : ℕ)
      → ms.find_one g a (set_all t ms id xs s).members ≡ (
          if g == id
          then assigned id xs a (ms.find_one g a s.members)
          else ms.find_one g a s.members)
  unfolding set_all
  set_all_lem id [] s g a = ground arith
  set_all_lem id (x ∷ xs) s g a = elim (Bool-cases (g == id)) [
    | inl same ↦
        set_all_lem id xs (set_share t ms id x s) g a
        ∙ rw same (ap (assigned id xs a) (set_share_lem id x s g a ∙ rw same refl))
    | inr other ↦
        set_all_lem id xs (set_share t ms id x s) g a
        ∙ rw other (set_share_lem id x s g a ∙ rw other refl)
  ]

  -- For a group that exists, setting shares gives every address that is listed its last share in
  -- the list, whether or not it was a member, and leaves every other membership, of this and of the
  -- other groups, as it was.
  pub set_shares_lem :
      (id : ℕ) (shares : List (ℕ × ℕ)) (s : Memberships t ms) (group : Group)
      → t.find_one id s.groups ≡ some group
      → (g a : ℕ)
      → ms.find_one g a (set_shares t ms id shares s).1.members ≡ (
          if g == id
          then assigned id shares a (ms.find_one g a s.members)
          else ms.find_one g a s.members)
  unfolding set_shares find_group
  set_shares_lem id shares s group found g a =
      rw (found, set_shares)
        (ap (λ k. ms.find_one g a (set_all t ms k shares s).members)
            (t.find_one-key id s.groups group found)
          ∙ set_all_lem id shares s g a)

  -- For a group that exists, joining answers with a membership of that address, which is then
  -- stored; joining again answers with the same one and writes nothing, so a share that was set
  -- stays.
  pub add_member_twice :
      (id address : ℕ) (s : Memberships t ms) (group : Group)
      → t.find_one id s.groups ≡ some group
      → (m : GroupMember) × ((add_member t ms id address s).0 ≡ ok m)
        × (m.address ≡ address)
        × (ms.find_one group.on_chain_id address (add_member t ms id address s).1.members ≡ some m)
        × (add_member t ms id address (add_member t ms id address s).1
            ≡ (ok m, (add_member t ms id address s).1))
  unfolding add_member find_group
  add_member_twice id address s group found =
      let g = group.on_chain_id in
      let new : GroupMember = record { group = g; address = address; share_bps = 0 } in
      elim (Option-cases (ms.find_one g address s.members)) [
        | inl missing ↦
            let stored : ms.find_one g address (ms.save new s.members) ≡ some new = ground (
              arith,
              ms.find_one-save g address new s.members,
              ==_iff g g,
              ==_iff address address,
            ) in
            (new, ground arith, refl, ground (arith, stored), ground (arith, stored))
        | inr (m, there) ↦ (
          m,
          ground arith,
          (ms.find_one-key g address s.members m there).1,
          ground arith,
          ground arith,
        )
      ]
