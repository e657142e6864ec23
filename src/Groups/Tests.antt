-- ===== src/Groups/Tests.antt =====
-- Memberships in a list of rows, the latest save first.
use stow.Prelude.{
  ℕ, ◌≡◌, refl, Option, none, some, List, [], ◌∷◌, arith, ◌==◌, ==_iff, ◌&&◌, if◌then◌else◌,
}
use stow.Prelude.Table.{list_table}
use stow.Groups.{group_id, unknown_group}
use stow.Groups.Members.{GroupMember, MemberTable, Memberships}

abbrev find_member : ℕ → ℕ → List GroupMember → Option GroupMember
find_member g a [] = none
find_member g a (m ∷ ms) = if g == m.group && a == m.address then some m else find_member g a ms

pub find_member-key :
    (g a : ℕ) (ms : List GroupMember) (m : GroupMember)
    → find_member g a ms ≡ some m
    → (m.group ≡ g) × (m.address ≡ a)
find_member-key g a [] m h = absurd (ground arith)
find_member-key g a (x ∷ ms) m h =
    ground (arith, find_member-key g a ms m, ==_iff g x.group, ==_iff a x.address)

abbrev member_rows : MemberTable
member_rows = record {
  Store = List GroupMember;
  find_one = find_member;
  save = λ m ms. m ∷ ms;
  find_one-save = λ g a m s. refl;
  find_one-key = find_member-key;
}

-- The group 4, with the member 7.
abbrev one_group : Memberships (list_table group_id) member_rows
one_group = record {
  groups = unknown_group 4 ∷ [];
  members = record { group = 4; address = 7; share_bps = 100 } ∷ [];
}
