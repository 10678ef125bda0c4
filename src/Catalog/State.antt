-- ===== src/Catalog/State.antt =====
-- The catalog's tables, and the errors that its methods raise.
use goblin_king.Base.{ℕ, String, ◌==◌, Bool, ◌&&◌, Option, List, eqb}
use goblin_king.Contracts.{RepositoryEntryRecord, RepositoryVersionRecord, RepositoryStatus}
use goblin_king.Table.{get_row, find_where}

-- What deletion reads of a notebook service: its kind and its active runtime.
pub record NotebookServiceRow : Type 0 where
  pub kind : String
  pub active_service_id : Option String

pub record Catalog : Type 0 where
  pub entries : List RepositoryEntryRecord
  pub versions : List RepositoryVersionRecord
  -- the kinds of the notebook_goblins table
  pub notebook_goblins : List String
  pub notebook_services : List NotebookServiceRow

pub data CatalogError : Type 0 where
  integrity_error : CatalogError
  entry_not_draft draft_published name_taken published_without_version : CatalogError
  entry_not_found version_not_found : CatalogError
  bad_transition : (current target : RepositoryStatus) → CatalogError
  version_not_published not_deletable active_service : CatalogError
  version_not_draft draft_approved draft_version_published retired_entry : CatalogError
  first_version_not_1 not_sequential same_source already_exists : CatalogError
  published_immutable identity_changed source_needs_draft source_needs_clear : CatalogError
  needs_approval needs_timestamp needs_proof needs_approver : CatalogError

abbrev pub entry_key : RepositoryEntryRecord → String
entry_key entry = entry.id

abbrev pub version_key : RepositoryVersionRecord → String
version_key version = version.id

-- The row of one entry and number.
abbrev pub is_version : String → ℕ → RepositoryVersionRecord → Bool
is_version entry_id number row = row.entry_id == entry_id && eqb row.version number

unfoldable pub get_repository_entry : String → Catalog → Option RepositoryEntryRecord
get_repository_entry entry_id catalog = get_row entry_key entry_id catalog.entries

unfoldable pub get_repository_version : String → ℕ → Catalog → Option RepositoryVersionRecord
get_repository_version entry_id number catalog =
    find_where (is_version entry_id number) catalog.versions
