-- ===== src/Catalog/Changes.antt =====
-- What the catalog's methods do to the table of versions.
use goblin_king.Base.{
  ℕ, String, ◌==◌, ◌≡◌, refl, inl, inr, true, false, Option, some, arith, Bool-cases, Option-cases,
  Result-cases, ok, is_some, or_option,
}
use goblin_king.Contracts.{RepositoryEntryRecord, RepositoryVersionRecord, RepositoryStatus}
use goblin_king.Table.{get_row, update_where, insert_row}
use goblin_king.Catalog.State.{Catalog, version_key, is_version, get_repository_version}
use goblin_king.Catalog.Transition.{same_status}
use goblin_king.Catalog.Entries.{
  create_repository_entry, update_repository_entry, transition_repository_entry_status,
}
use goblin_king.Catalog.Calls.{
  CatalogCall, create_entry, update_entry, transition_entry, create_version, update_version,
  transition_version, perform,
}
use goblin_king.Catalog.Review.{Review, reviewed, stepped, cleared, or_text}
use goblin_king.Catalog.Versions.{
  create_repository_version, update_repository_version, transition_repository_version_status,
  same_identity, ensure_publishable, write_review,
}

-- The review leaves the identity of a version alone.
pub reviewed-identity :
    (status : RepositoryStatus) (review : Review) (existing row : RepositoryVersionRecord)
    → reviewed status review existing ≡ ok row
    → (row.id ≡ existing.id)
      × ((row.entry_id ≡ existing.entry_id) × (row.version ≡ existing.version))
unfolding reviewed stepped cleared
reviewed-identity RepositoryStatus.draft review existing row h = ground arith
reviewed-identity RepositoryStatus.validated review existing row h = ground arith
reviewed-identity RepositoryStatus.pending_review review existing row h = ground arith
reviewed-identity RepositoryStatus.approved review existing row h = ground arith
reviewed-identity RepositoryStatus.published review existing row h = ground arith
reviewed-identity RepositoryStatus.rejected review existing row h = ground arith
reviewed-identity RepositoryStatus.retired review existing row h = ground arith

-- A published version names its approver and the times of its approval and publication.
abbrev pub IsVetted : RepositoryVersionRecord → Type 0
IsVetted version =
    same_status version.status RepositoryStatus.published ≡ true
    → (is_some version.approved_by ≡ true)
      × (is_some version.approved_at ≡ true)
      × (is_some version.published_at ≡ true)

pub reviewed-IsVetted :
    (status : RepositoryStatus) (review : Review) (existing row : RepositoryVersionRecord)
    → reviewed status review existing ≡ ok row
    → IsVetted row
unfolding reviewed stepped cleared
reviewed-IsVetted RepositoryStatus.draft review existing row h e = ground arith
reviewed-IsVetted RepositoryStatus.validated review existing row h e = ground arith
reviewed-IsVetted RepositoryStatus.pending_review review existing row h e = ground arith
reviewed-IsVetted RepositoryStatus.approved review existing row h e = ground arith
reviewed-IsVetted RepositoryStatus.published review existing row h e =
    elim (Option-cases (or_text review.approved_by existing.approved_by)) [
      | inl n ↦ ground arith
      | inr (approver, n) ↦
          elim (Option-cases (or_option review.approved_at existing.approved_at)) [
            | inl m ↦ ground arith
            | inr (approved, m) ↦ (ground arith, ground arith, ground arith)
          ]
    ]
reviewed-IsVetted RepositoryStatus.rejected review existing row h e = ground arith
reviewed-IsVetted RepositoryStatus.retired review existing row h e = ground arith

-- What a call did to the table of versions, if it returned.
pub data VersionsChange (catalog : Catalog) : Catalog → Type 0 where
  -- no version was written
  kept : {after : Catalog} → after.versions ≡ catalog.versions → VersionsChange catalog after
  -- one version was added
  added :
      {after : Catalog} (version : RepositoryVersionRecord)
      → insert_row version_key version catalog.versions ≡ some after.versions
      → same_status version.status RepositoryStatus.draft ≡ true
      → VersionsChange catalog after
  -- the version of an id was replaced by one of the same identity
  replaced :
      {after : Catalog} (existing version : RepositoryVersionRecord)
      → get_row version_key version.id catalog.versions ≡ some existing
      → same_status existing.status RepositoryStatus.published ≡ false
      → same_identity existing version ≡ true
      → IsVetted version
      → after.versions ≡ update_where (λ row. row.id == version.id) (λ _. version) catalog.versions
      → VersionsChange catalog after
  -- the version of a number went through a review step
  stepped_to :
      {after : Catalog} (entry_id : String) (number : ℕ) (status : RepositoryStatus)
      (review : Review) (existing row : RepositoryVersionRecord)
      → get_repository_version entry_id number catalog ≡ some existing
      → same_status existing.status RepositoryStatus.published ≡ false
      → reviewed status review existing ≡ ok row
      → after.versions
        ≡ update_where (is_version entry_id number) (write_review row) catalog.versions
      → VersionsChange catalog after

create_repository_entry-versions :
    (entry row : RepositoryEntryRecord) (catalog after : Catalog)
    → create_repository_entry entry catalog ≡ ok (after, row)
    → after.versions ≡ catalog.versions
unfolding create_repository_entry
create_repository_entry-versions entry row catalog after h = ground arith

update_repository_entry-versions :
    (entry row : RepositoryEntryRecord) (catalog after : Catalog)
    → update_repository_entry entry catalog ≡ ok (after, row)
    → after.versions ≡ catalog.versions
unfolding update_repository_entry
update_repository_entry-versions entry row catalog after h = ground arith

transition_repository_entry_status-versions :
    (entry_id : String) (status : RepositoryStatus) (updated_at : ℕ) (number : Option ℕ)
    (catalog after : Catalog)
    → transition_repository_entry_status entry_id status updated_at number catalog ≡ ok after
    → after.versions ≡ catalog.versions
unfolding transition_repository_entry_status
transition_repository_entry_status-versions entry_id status updated_at number catalog after h =
    ground arith

create_repository_version-inserts :
    (version row : RepositoryVersionRecord) (catalog after : Catalog)
    → create_repository_version version catalog ≡ ok (after, row)
    → (insert_row version_key version catalog.versions ≡ some after.versions)
      × (same_status version.status RepositoryStatus.draft ≡ true)
unfolding create_repository_version
create_repository_version-inserts version row catalog after h = ground arith

update_repository_version-replaces :
    (version row : RepositoryVersionRecord) (catalog after : Catalog)
    → update_repository_version version catalog ≡ ok (after, row)
    → (existing : RepositoryVersionRecord) × (get_row version_key version.id catalog.versions
        ≡ some existing)
      × (same_status existing.status RepositoryStatus.published ≡ false)
      × (same_identity existing version ≡ true)
      × IsVetted version
      × (after.versions
          ≡ update_where (λ row. row.id == version.id) (λ _. version) catalog.versions)
unfolding update_repository_version ensure_publishable
update_repository_version-replaces version row catalog after h =
    elim (Option-cases (get_row version_key version.id catalog.versions)) [
      | inl e ↦ ground arith
      | inr (existing, e) ↦
          (existing, e, ground arith, ground arith, λ p. ground arith, ground arith)
    ]

transition_repository_version_status-change :
    (entry_id : String) (number : ℕ) (status : RepositoryStatus) (review : Review)
    (row : RepositoryVersionRecord) (catalog after : Catalog)
    → transition_repository_version_status entry_id number status review catalog ≡ ok (after, row)
    → VersionsChange catalog after
unfolding transition_repository_version_status
transition_repository_version_status-change entry_id number status review row catalog after h =
    elim (Option-cases (get_repository_version entry_id number catalog)) [
      | inl e ↦ ground arith
      | inr (existing, e) ↦
          elim (Bool-cases (same_status existing.status RepositoryStatus.published)) [
            | inl p ↦ kept (ground arith)
            | inr p ↦ elim (Result-cases (reviewed status review existing)) [
              | inl (done, r) ↦
                  stepped_to entry_id number status review existing done e p r (ground arith)
              | inr (err, r) ↦ ground arith
            ]
          ]
    ]

-- Every call makes one of these changes.
pub perform-change :
    (call : CatalogCall) (catalog : Catalog) → VersionsChange catalog (perform call catalog)
perform-change (create_entry entry) catalog =
    elim (Result-cases (create_repository_entry entry catalog)) [
      | inl ((after, row), e) ↦
          rw e (kept (create_repository_entry-versions entry row catalog after e))
      | inr (err, e) ↦ rw e (kept refl)
    ]
perform-change (update_entry entry) catalog =
    elim (Result-cases (update_repository_entry entry catalog)) [
      | inl ((after, row), e) ↦
          rw e (kept (update_repository_entry-versions entry row catalog after e))
      | inr (err, e) ↦ rw e (kept refl)
    ]
perform-change (transition_entry entry_id status updated_at number) catalog =
    elim (Result-cases
      (transition_repository_entry_status entry_id status updated_at number catalog)) [
        | inl (after, e) ↦ rw e (
            kept (
              transition_repository_entry_status-versions entry_id status updated_at number catalog
                after e))
        | inr (err, e) ↦ rw e (kept refl)
      ]
perform-change (create_version version) catalog =
    elim (Result-cases (create_repository_version version catalog)) [
      | inl ((after, row), e) ↦
          let (ins, draft) = create_repository_version-inserts version row catalog after e in
          rw e (added version ins draft)
      | inr (err, e) ↦ rw e (kept refl)
    ]
perform-change (update_version version) catalog =
    elim (Result-cases (update_repository_version version catalog)) [
      | inl ((after, row), e) ↦
          let (existing, found, live, same, vetted, written) =
            update_repository_version-replaces version row catalog after e in
          rw e (replaced existing version found live same vetted written)
      | inr (err, e) ↦ rw e (kept refl)
    ]
perform-change (transition_version entry_id number status review) catalog =
    elim (Result-cases
      (transition_repository_version_status entry_id number status review catalog)) [
        | inl ((after, row), e) ↦ rw e (
            transition_repository_version_status-change entry_id number status review row catalog
              after e)
        | inr (err, e) ↦ rw e (kept refl)
      ]
