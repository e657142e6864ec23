-- ===== src/Roundup/Service/Sample.antt =====
-- A table of round-up records as a list.
use stow.Prelude.{
  ℕ, ◌≡◌, refl, Bool, true, false, some, List, [], ◌∷◌, All, arith, ◌==◌, ==_iff, ==_refl, ◌&&◌,
}
use stow.Prelude.Table.{list_table, find_row}
use stow.Prelude.Query.{found_of, IsFound, found_of-IsFound, found_of-In}
use stow.Roundup.Records.{RecordStatus, RoundupRecord, record_id, RecordTable}

abbrev pub is_pending : RecordStatus → Bool
is_pending RecordStatus.pending = true
is_pending _ = false

abbrev pub waits : ℕ → RoundupRecord → Bool
waits config r = is_pending r.status && r.config_id == config

pub pending_found :
    (config : ℕ) (s rs : List RoundupRecord)
    → All (IsFound record_id (waits config) s) rs
    → All
        (λ r.
          (r.status ≡ RecordStatus.pending)
          × (r.config_id ≡ config)
          × (find_row record_id r.id s ≡ some r))
        rs
pending_found config s [] h = tt
pending_found config s (r ∷ rs) ((w, found), h) =
    ((ground arith, ground (arith, ==_iff r.config_id config), found), pending_found config s rs h)

pub pending-waits :
    (config : ℕ) (r : RoundupRecord)
    → r.status ≡ RecordStatus.pending
    → r.config_id ≡ config
    → waits config r ≡ true
pending-waits config r pending mine = rw (pending, mine, ==_refl config) refl

abbrev pub list_records : RecordTable
list_records = record {
  rows = list_table record_id;
  find_pending = λ config s. found_of record_id (waits config) s s;
  find_pending-pending = λ config s.
      pending_found config s (found_of record_id (waits config) s s)
        (found_of-IsFound record_id (waits config) s s);
  find_pending-complete = λ config s r found pending mine.
      found_of-In record_id (waits config) s r found (pending-waits config r pending mine);
}
