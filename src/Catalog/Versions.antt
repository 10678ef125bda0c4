-- ===== src/Catalog/Versions.antt =====
-- Source versions: submission, replacement and the review's status changes.
use goblin_king.Base.{
  ℕ, ◌+◌, String, ◌==◌, Bool, not, ◌&&◌, ◌||◌, Option, none, some, List, [], ◌∷◌, eqb, leb, is_some,
  Result, ok, raise, ◌>>=◌, ◌>>◌, raise_if, if◌then◌else◌,
}
use goblin_king.Contracts.{
  RepositoryEntryRecord, RepositoryVersionRecord, RepositoryStatus, is_empty,
}
use goblin_king.Table.{get_row, update_where, insert_row, select_where, order_by}
use goblin_king.Catalog.State.{
  Catalog, CatalogError, integrity_error, entry_not_found, version_not_found, version_not_draft,
  draft_approved, draft_version_published, retired_entry, first_version_not_1, not_sequential,
  same_source, already_exists, published_immutable, identity_changed, source_needs_draft,
  source_needs_clear, needs_approval, needs_timestamp, version_key, is_version,
  get_repository_entry, get_repository_version,
}
use goblin_king.Catalog.Transition.{same_status, validate_repository_transition}
use goblin_king.Catalog.Entries.{change_entry}
use goblin_king.Catalog.Review.{Review, reviewed}

-- ORDER BY version DESC, `.first()`, over the versions of one entry
unfoldable pub latest_version :
    String → List RepositoryVersionRecord → Option RepositoryVersionRecord
latest_version entry_id versions =
    elim (order_by (λ a b. leb b.version a.version)
      (select_where (λ row. row.entry_id == entry_id) versions)) [ [] ↦ none | row ∷ _ ↦ some row ]

-- The numbering: the first version is 1, and a later one is the next with another source.
unfoldable pub check_sequence :
    RepositoryVersionRecord → Option RepositoryVersionRecord → Result CatalogError (Unit {0})
check_sequence version none = raise_if (not (eqb version.version 1)) first_version_not_1
check_sequence version (some latest) = do
  raise_if (not (eqb version.version (latest.version + 1))) not_sequential
  raise_if (version.source_hash == latest.source_hash) same_source

unfoldable pub create_repository_version :
    RepositoryVersionRecord → Catalog → Result CatalogError (Catalog × RepositoryVersionRecord)
create_repository_version version catalog = do
  raise_if
      (not (same_status version.status RepositoryStatus.draft)
        || not (same_status version.approval_status RepositoryStatus.draft))
      version_not_draft
  raise_if (is_some version.approved_by || is_some version.approved_at) draft_approved
  raise_if (is_some version.published_at) draft_version_published
  elim (get_repository_entry version.entry_id catalog) [
    | none ↦ raise entry_not_found
    | some entry ↦ do
      raise_if (same_status entry.status RepositoryStatus.retired) retired_entry
      check_sequence version (latest_version version.entry_id catalog.versions)
      raise_if (is_some (get_repository_version version.entry_id version.version catalog))
          already_exists
      elim (insert_row version_key version catalog.versions) [
        | none ↦ raise integrity_error
        | some versions ↦ ok (
          change_entry version.entry_id
              (λ row. record row {
                status = RepositoryStatus.draft;
                updated_at = version.updated_at;
              })
              (record catalog { versions = versions }),
          version,
        )
      ]
  ]

-- REPOSITORY_VERSION_IDENTITY_FIELDS: the source's hash is one of them.
unfoldable pub same_identity : RepositoryVersionRecord → RepositoryVersionRecord → Bool
same_identity a b =
    (a.entry_id == b.entry_id && eqb a.version b.version)
    && ((a.kind == b.kind && a.source_hash == b.source_hash)
        && (a.runner_image == b.runner_image && eqb a.created_at b.created_at))

unfoldable pub ensure_publishable : RepositoryVersionRecord → Result CatalogError (Unit {0})
ensure_publishable version =
    if not (same_status version.status RepositoryStatus.published) then ok tt else do
      raise_if
          (not (
            same_status version.approval_status RepositoryStatus.approved
            || same_status version.approval_status RepositoryStatus.published))
          needs_approval
      raise_if (not (is_some version.approved_by) || not (is_some version.approved_at))
          needs_approval
      raise_if (not (is_some version.published_at)) needs_timestamp

-- Review state that a source change must clear.
unfoldable pub is_clear : RepositoryVersionRecord → Bool
is_clear version =
    (same_status version.status RepositoryStatus.draft
      && same_status version.approval_status RepositoryStatus.draft)
    && ((is_empty version.validation_proof && not (is_some version.approved_by))
        && (not (is_some version.approved_at) && not (is_some version.published_at)))

unfoldable pub check_source :
    (existing version : RepositoryVersionRecord) → Result CatalogError (Unit {0})
check_source existing version = if existing.source_hash == version.source_hash then ok tt else do
  raise_if (not (same_status existing.status RepositoryStatus.draft)) source_needs_draft
  raise_if (not (is_clear version)) source_needs_clear

unfoldable pub update_repository_version :
    RepositoryVersionRecord → Catalog → Result CatalogError (Catalog × RepositoryVersionRecord)
update_repository_version version catalog = elim (get_row version_key version.id catalog.versions) [
  | none ↦ raise version_not_found
  | some existing ↦ do
    raise_if (same_status existing.status RepositoryStatus.published) published_immutable
    raise_if (not (same_identity existing version)) identity_changed
    validate_repository_transition existing.status version.status
    check_source existing version
    ensure_publishable version
    let stored = record catalog {
      versions = update_where (λ row. row.id == version.id) (λ _. version) catalog.versions;
    }
    ok (
      if same_status version.status RepositoryStatus.published
          then change_entry version.entry_id
              (λ row. record row {
                status = RepositoryStatus.published;
                published_version = some version.version;
                updated_at = version.updated_at;
              })
              stored
          else stored,
      version,
    )
]

-- The entry follows the version: it takes over its status, whatever its own status was.
unfoldable pub follow_version :
    RepositoryStatus → ℕ → ℕ → RepositoryEntryRecord → RepositoryEntryRecord
follow_version status updated_at number row = record row {
  status = status;
  updated_at = updated_at;
  published_version =
      if same_status status RepositoryStatus.published then some number else row.published_version;
}

-- The columns that `.values(**values)` writes; a column that is not set keeps the row's value.
unfoldable pub write_review :
    (reviewed_row : RepositoryVersionRecord) → RepositoryVersionRecord → RepositoryVersionRecord
write_review reviewed_row row = record row {
  status = reviewed_row.status;
  updated_at = reviewed_row.updated_at;
  validation_proof = reviewed_row.validation_proof;
  approval_status = reviewed_row.approval_status;
  approved_by = reviewed_row.approved_by;
  approved_at = reviewed_row.approved_at;
  published_at = reviewed_row.published_at;
}

unfoldable pub transition_repository_version_status :
    (entry_id : String) (number : ℕ) (status : RepositoryStatus) (review : Review)
    → Catalog
    → Result CatalogError (Catalog × RepositoryVersionRecord)
transition_repository_version_status entry_id number status review catalog =
    elim (get_repository_version entry_id number catalog) [
      | none ↦ raise version_not_found
      | some existing ↦
          if same_status existing.status RepositoryStatus.published
          then (if same_status status RepositoryStatus.published
              then ok (catalog, existing)
              else raise published_immutable)
          else do
            validate_repository_transition existing.status status
            row ← reviewed status review existing
            ok (
              change_entry entry_id (follow_version status review.updated_at number)
                  (record catalog {
                    versions =
                        update_where (is_version entry_id number) (write_review row)
                          catalog.versions;
                  }),
              row,
            )
    ]
