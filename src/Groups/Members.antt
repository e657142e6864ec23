-- ===== src/Groups/Members.antt =====
-- backend/src/savings/groups.service.ts: the memberships of the groups
-- (entities/group-member.entity.ts). A membership's group is given by its on-chain id, which stands
-- for the primary key; the identifier and the timestamps of a row are left out.
use stow.Prelude.{ℕ, ◌≡◌, Option, none, some, List, [], ◌∷◌, ◌==◌, ◌&&◌, if◌then◌else◌}
use stow.Prelude.Result.{ok, Action, gets, or_raise, pure, not_found, ◌>>=◌}
use stow.Groups.{Group, GroupTable}

pub record GroupMember : Type 0 where
  pub group : ℕ
  pub address : ℕ
  pub share_bps : ℕ

-- The table, unique on the group and the address.
pub record MemberTable : Type 1 where
  pub Store : Type 0
  pub find_one : ℕ → ℕ → Store → Option GroupMember
  pub save : GroupMember → Store → Store
  pub find_one-save :
      (g a : ℕ) (m : GroupMember) (s : Store)
      → find_one g a (save m s)
        ≡ (if g == m.group && a == m.address then some m else find_one g a s)
  pub find_one-key :
      (g a : ℕ) (s : Store) (m : GroupMember)
      → find_one g a s ≡ some m
      → (m.group ≡ g) × (m.address ≡ a)

pub record Memberships (t : GroupTable) (ms : MemberTable) : Type 0 where
  pub groups : t.Store
  pub members : ms.Store

-- `create({ group_id, address })` where the row is missing; the share is set right after.
abbrev pub found_or_joined : ℕ → ℕ → Option GroupMember → GroupMember
found_or_joined g a none = record { group = g; address = a; share_bps = 0 }
found_or_joined g a (some m) = m

module _ (t : GroupTable) (ms : MemberTable) where
  abbrev save_member : GroupMember → Action (Memberships t ms) GroupMember
  save_member m s = (ok m, record s { members = ms.save m s.members })

  unfoldable pub find_group : ℕ → Action (Memberships t ms) Group
  find_group id s = or_raise (t.find_one id s.groups) not_found s

  pub keep_or_join : ℕ → ℕ → Option GroupMember → Action (Memberships t ms) GroupMember
  keep_or_join id address (some existing) = pure existing
  keep_or_join id address none =
      save_member (record { group = id; address = address; share_bps = 0 })

  unfoldable pub add_member : ℕ → ℕ → Action (Memberships t ms) GroupMember
  unfolding find_group keep_or_join
  add_member id address = do
    group ← find_group id
    existing ← gets (λ s. ms.find_one group.on_chain_id address s.members)
    keep_or_join group.on_chain_id address existing

  -- One round of the loop of `setShares`.
  abbrev pub set_share : ℕ → ℕ × ℕ → Memberships t ms → Memberships t ms
  set_share id (address, share) s = record s {
    members =
        ms.save
          (record (found_or_joined id address (ms.find_one id address s.members)) {
            share_bps = share;
          })
          s.members;
  }

  unfoldable pub set_all : ℕ → List (ℕ × ℕ) → Memberships t ms → Memberships t ms
  set_all id [] s = s
  set_all id (x ∷ xs) s = set_all id xs (set_share id x s)

  -- `setShares`, up to the list that it returns; the entries of the record are in their order.
  unfoldable pub set_shares : ℕ → List (ℕ × ℕ) → Action (Memberships t ms) (Unit {0})
  unfolding find_group set_all
  set_shares id shares = do
    group ← find_group id
    (λ s. (ok tt, set_all group.on_chain_id shares s))
