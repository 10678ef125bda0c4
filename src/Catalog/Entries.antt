-- ===== src/Catalog/Entries.antt =====
-- Catalog entries: creation, replacement, status changes and deletion.
use goblin_king.Base.{
  zero, suc, ℕ, String, ◌==◌, Bool, true, false, not, ◌&&◌, Option, none, some, List, map, any,
  is_some, is_text, same_text, Result, ok, raise, ◌>>◌, raise_if, if◌then◌else◌, or_option,
}
use goblin_king.Contracts.{
  RepositoryEntryRecord, RepositoryVersionRecord, RepositoryStatus, RepositoryType,
}
use goblin_king.Table.{find_where, update_where, delete_where, row_count, insert_row, select_where}
use goblin_king.Catalog.State.{
  Catalog, CatalogError, NotebookServiceRow, integrity_error, entry_not_draft, draft_published,
  name_taken, published_without_version, entry_not_found, version_not_published, not_deletable,
  active_service, entry_key, get_repository_entry, get_repository_version,
}
use goblin_king.Catalog.Transition.{same_status, validate_repository_transition}

-- A live entry of the project has the name; `exclude_entry_id` may leave one entry out.
unfoldable pub takes_name :
    (project_id : Option String) (name : String) (exclude_entry_id : Option String)
    → RepositoryEntryRecord
    → Bool
takes_name project_id name exclude_entry_id row =
    (row.name == name && not (same_status row.status RepositoryStatus.retired))
    && (same_text row.project_id project_id && not (is_text exclude_entry_id row.id))

unfoldable pub ensure_repository_entry_name_available :
    (project_id : Option String) (name : String) (exclude_entry_id : Option String)
    → Catalog
    → Result CatalogError (Unit {0})
ensure_repository_entry_name_available project_id name exclude_entry_id catalog =
    raise_if (is_some (find_where (takes_name project_id name exclude_entry_id) catalog.entries))
      name_taken

unfoldable pub create_repository_entry :
    RepositoryEntryRecord → Catalog → Result CatalogError (Catalog × RepositoryEntryRecord)
create_repository_entry entry catalog = do
  raise_if (not (same_status entry.status RepositoryStatus.draft)) entry_not_draft
  raise_if (is_some entry.published_version) draft_published
  ensure_repository_entry_name_available entry.project_id entry.name none catalog
  elim (insert_row entry_key entry catalog.entries) [
    | none ↦ raise integrity_error
    | some entries ↦ ok (record catalog { entries = entries }, entry)
  ]

-- `_require_repository_version_status(..., "published")`
unfoldable pub require_published_version :
    (entry_id : String) (number : ℕ) → Catalog → Result CatalogError (Unit {0})
require_published_version entry_id number catalog =
    elim (get_repository_version entry_id number catalog) [
      | none ↦ raise version_not_published
      | some version ↦
          raise_if (not (same_status version.status RepositoryStatus.published))
            version_not_published
    ]

abbrev pub require_published_if : String → Option ℕ → Catalog → Result CatalogError (Unit {0})
require_published_if entry_id none catalog = ok tt
require_published_if entry_id (some number) catalog =
    require_published_version entry_id number catalog

unfoldable pub update_repository_entry :
    RepositoryEntryRecord → Catalog → Result CatalogError (Catalog × RepositoryEntryRecord)
update_repository_entry entry catalog = elim (get_repository_entry entry.id catalog) [
  | none ↦ raise entry_not_found
  | some existing ↦ do
    validate_repository_transition existing.status entry.status
    raise_if
        (same_status entry.status RepositoryStatus.published
          && not (is_some entry.published_version))
        published_without_version
    if same_text entry.project_id existing.project_id && entry.name == existing.name
        then ok tt
        else ensure_repository_entry_name_available entry.project_id entry.name (some entry.id)
            catalog
    require_published_if entry.id entry.published_version catalog
    ok (
      record catalog {
        entries = update_where (λ row. row.id == entry.id) (λ _. entry) catalog.entries;
      },
      entry,
    )
]

-- `a or b` of two optional numbers: 0 is falsy.
abbrev or_number : Option ℕ → Option ℕ → Option ℕ
or_number none b = b
or_number (some zero) b = b
or_number (some (suc n)) b = some (suc n)

-- The published version that is written: a publication falls back on the entry's own, any other
-- step writes the one it was given.
abbrev chosen_version : RepositoryStatus → Option ℕ → Option ℕ → Option ℕ
chosen_version status published_version own =
    if same_status status RepositoryStatus.published
    then or_number published_version own
    else or_option published_version own

unfoldable pub set_entry_status :
    (status : RepositoryStatus) (updated_at : ℕ) (published_version : Option ℕ)
    → RepositoryEntryRecord
    → RepositoryEntryRecord
set_entry_status status updated_at published_version row = record row {
  status = status;
  updated_at = updated_at;
  published_version = chosen_version status published_version row.published_version;
}

abbrev pub change_entry :
    String → (RepositoryEntryRecord → RepositoryEntryRecord) → Catalog → Catalog
change_entry entry_id change catalog = record catalog {
  entries = update_where (λ row. row.id == entry_id) change catalog.entries;
}

unfoldable pub transition_repository_entry_status :
    (entry_id : String) (status : RepositoryStatus) (updated_at : ℕ) (published_version : Option ℕ)
    → Catalog
    → Result CatalogError Catalog
transition_repository_entry_status entry_id status updated_at published_version catalog =
    elim (get_repository_entry entry_id catalog) [
      | none ↦ raise entry_not_found
      | some existing ↦ do
        validate_repository_transition existing.status status
        if same_status status RepositoryStatus.published
            then elim (or_number published_version existing.published_version) [
              | none ↦ raise published_without_version
              | some number ↦ require_published_version entry_id number catalog
            ]
            else ok tt
        ok (change_entry entry_id (set_entry_status status updated_at published_version) catalog)
    ]

abbrev pub is_deletable : RepositoryStatus → Bool
is_deletable RepositoryStatus.draft = true
is_deletable RepositoryStatus.rejected = true
is_deletable RepositoryStatus.retired = true
is_deletable _ = false

abbrev pub is_service : RepositoryType → Bool
is_service RepositoryType.notebook_service = true
is_service RepositoryType.notebook_function = false

-- The kinds of the entry's versions; `kind in kinds`.
abbrev pub version_kinds : String → Catalog → List String
version_kinds entry_id catalog =
    map (λ row. row.kind) (select_where (λ row. row.entry_id == entry_id) catalog.versions)

abbrev pub is_listed : List String → String → Bool
is_listed kinds kind = any (λ listed. listed == kind) kinds

-- The report of a deletion: the versions and the notebook records that it removed.
pub record Deletion : Type 0 where
  pub deleted_versions : ℕ
  pub deleted_notebook_records : ℕ

unfoldable pub delete_repository_entry :
    (entry_id : String) → Catalog → Result CatalogError (Catalog × Deletion)
delete_repository_entry entry_id catalog = elim (get_repository_entry entry_id catalog) [
  | none ↦ raise entry_not_found
  | some entry ↦
      let kinds = version_kinds entry_id catalog in
      let service = is_service entry.type in
      let runs : NotebookServiceRow → Bool =
        λ row. is_listed kinds row.kind && is_some row.active_service_id in
      let named : NotebookServiceRow → Bool = λ row. is_listed kinds row.kind in
      let owned : String → Bool = is_listed kinds in
      let of_entry : RepositoryVersionRecord → Bool = λ row. row.entry_id == entry_id in
      do
        raise_if (not (is_deletable entry.status)) not_deletable
        raise_if (service && is_some (find_where runs catalog.notebook_services)) active_service
        ok (
          record catalog {
            entries = delete_where (λ row. row.id == entry_id) catalog.entries;
            versions = delete_where of_entry catalog.versions;
            notebook_goblins =
                if service
                then catalog.notebook_goblins
                else delete_where owned catalog.notebook_goblins;
            notebook_services =
                if service
                then delete_where named catalog.notebook_services
                else catalog.notebook_services;
          },
          record {
            deleted_versions = row_count of_entry catalog.versions;
            deleted_notebook_records =
                if service
                then row_count named catalog.notebook_services
                else row_count owned catalog.notebook_goblins;
          },
        )
]
