-- ===== src/Roundup/Service/Updates.antt =====
-- What an update of several records leaves in the table.
use stow.Prelude.{
  In, ℕ, ◌≡◌, ◌⊎◌, refl, sym, ap, ◌∙◌, inl, inr, Option, none, some, List, [], ◌∷◌, ◌==◌, ==_refl,
  Bool-cases, Option-cases, some-eq, if◌then◌else◌,
}
use stow.Roundup.Records.{RecordStatus, RoundupRecord, RoundupStores, RoundupState}
use stow.Roundup.Service.{change_found, update_record, update_all}

module _ (t : RoundupStores) where
  module _ (change : RoundupRecord → RoundupRecord)
      (same_id : (r : RoundupRecord) → (change r).id ≡ r.id) where
    update_missing :
        (k : ℕ) (s : RoundupState t)
        → t.records.rows.find_one k s.records ≡ none
        → update_record t change k s ≡ s
    unfolding update_record
    update_missing k s missing = rw missing refl

    update_found :
        (id k : ℕ) (r : RoundupRecord) (s : RoundupState t)
        → t.records.rows.find_one k s.records ≡ some r
        → t.records.rows.find_one id (update_record t change k s).records
          ≡ (if id == k then some (change r) else t.records.rows.find_one id s.records)
    unfolding update_record
    update_found id k r s found =
        let place : (change r).id ≡ k =
          same_id r ∙ t.records.rows.find_one-key k s.records r found in
        rw (found, t.records.rows.find_one-save id (change r) s.records, place) refl

    -- A row is found where one was found.
    pub update_all-keeps :
        (id : ℕ) (rs : List RoundupRecord) (s : RoundupState t) (r : RoundupRecord)
        → t.records.rows.find_one id s.records ≡ some r
        → (r' : RoundupRecord) × (t.records.rows.find_one id (update_all t change rs s).records
            ≡ some r')
    unfolding update_all
    update_all-keeps id [] s r found = (r, found)
    update_all-keeps id (x ∷ xs) s r found =
        elim (Option-cases (t.records.rows.find_one x.id s.records)) [
          | inl missing ↦
              update_all-keeps id xs (update_record t change x.id s) r
                (rw (update_missing x.id s missing) found)
          | inr (y, there) ↦ elim (Bool-cases (id == x.id)) [
            | inl same ↦
                update_all-keeps id xs (update_record t change x.id s) (change y)
                  (update_found id x.id y s there ∙ rw same refl)
            | inr other ↦
                update_all-keeps id xs (update_record t change x.id s) r
                  (update_found id x.id y s there ∙ rw other found)
          ]
        ]

    module _ (status : RecordStatus) (sets : (r : RoundupRecord) → (change r).status ≡ status) where
      -- A row that is found has the new status, or it was there before.
      pub update_all-status :
          (id : ℕ) (rs : List RoundupRecord) (s : RoundupState t) (r : RoundupRecord)
          → t.records.rows.find_one id (update_all t change rs s).records ≡ some r
          → (r.status ≡ status) ⊎ (t.records.rows.find_one id s.records ≡ some r)
      unfolding update_all
      update_all-status id [] s r found = inr found
      update_all-status id (x ∷ xs) s r found =
          elim (update_all-status id xs (update_record t change x.id s) r found) [
            | inl changed ↦ inl changed
            | inr before ↦ elim (Option-cases (t.records.rows.find_one x.id s.records)) [
              | inl missing ↦ inr (rw (update_missing x.id s missing) at before)
              | inr (y, there) ↦
                  let now = sym (update_found id x.id y s there) ∙ before in
                  elim (Bool-cases (id == x.id)) [
                    | inl same ↦
                        let changed : some (change y) ≡ some r = rw same at now in
                        inl (ap (λ (q : RoundupRecord). q.status) (sym (some-eq changed)) ∙ sets y)
                    | inr other ↦ inr (rw other at now)
                  ]
            ]
          ]

      -- A row that is listed has the new status.
      pub update_all-In :
          (rs : List RoundupRecord) (s : RoundupState t) (r q : RoundupRecord)
          → In r rs
          → t.records.rows.find_one r.id s.records ≡ some q
          → (r' : RoundupRecord) × (t.records.rows.find_one r.id (update_all t change rs s).records
              ≡ some r')
            × (r'.status ≡ status)
      unfolding update_all
      update_all-In [] s r q listed found = absurd listed
      update_all-In (x ∷ xs) s r q (inr later) found =
          let (q', found') = update_all-keeps r.id (x ∷ []) s q found in
          update_all-In xs (update_record t change x.id s) r q' later found'
      update_all-In (x ∷ xs) s r q (inl same) found =
          let at_x : t.records.rows.find_one x.id s.records ≡ some q =
            ap (λ (y : RoundupRecord). t.records.rows.find_one y.id s.records) (sym same) ∙ found in
          let here : t.records.rows.find_one r.id (update_record t change x.id s).records
              ≡ some (change q) =
            update_found r.id x.id q s at_x
            ∙ rw (ap (λ (y : RoundupRecord). y.id) same, ==_refl x.id) refl in
          let (r', found') =
            update_all-keeps r.id xs (update_record t change x.id s) (change q) here in
          (
            r',
            found',
            elim (update_all-status r.id xs (update_record t change x.id s) r' found') [
              | inl changed ↦ changed
              | inr before ↦
                  ap (λ (y : RoundupRecord). y.status) (some-eq (sym before ∙ here)) ∙ sets q
            ],
          )

    pub update_all-accounts :
        (rs : List RoundupRecord) (s : RoundupState t)
        → (update_all t change rs s).accounts ≡ s.accounts
    unfolding update_all update_record
    update_all-accounts [] s = refl
    update_all-accounts (x ∷ xs) s =
        update_all-accounts xs (update_record t change x.id s)
        ∙ kept (t.records.rows.find_one x.id s.records)
      where
        kept : (o : Option RoundupRecord) → (change_found t change o s).accounts ≡ s.accounts
        kept none = refl
        kept (some r) = refl
