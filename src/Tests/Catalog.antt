-- ===== src/Tests/Catalog.antt =====
-- The catalog's theorems on a small catalog: an entry with a published version and a draft.
use goblin_king.Base.{◌⊎◌, ◌≡◌, refl, true, none, some, List, [], ◌∷◌, All}
use goblin_king.Contracts.{
  RepositoryEntryRecord, RepositoryVersionRecord, RepositoryStatus, RepositoryType, end, field,
  bool,
}
use goblin_king.Catalog.{
  Catalog, validate_repository_transition, get_repository_version, get_repository_entry,
}
use goblin_king.Catalog.Review.{Review, reviewed, stepped}
use goblin_king.Catalog.Versions.{
  create_repository_version, latest_version, check_sequence, transition_repository_version_status,
  follow_version, write_review,
}
use goblin_king.Catalog.Entries.{delete_repository_entry}
use goblin_king.Catalog.Removal.{IsDeleted, delete_repository_entry-IsDeleted}
use goblin_king.Catalog.Calls.{CatalogCall, update_version, transition_version, perform_all}
use goblin_king.Catalog.Changes.{IsVetted}
use goblin_king.Catalog.Published.{IsPublishedAt, perform_all-published, perform_all-IsVetted}
use goblin_king.Catalog.Followed.{IsStep, transition_repository_version_status-entry}
use goblin_king.Catalog.Numbering.{IsNext, create_repository_version-IsNext}

abbrev shared_entry : RepositoryEntryRecord
shared_entry = record {
  id = "n1";
  name = "report";
  kind = "notebook.report";
  type = RepositoryType.notebook_function;
  project_id = some "p1";
  owner = "ana";
  display_name = "Report";
  description = none;
  tags = [];
  status = RepositoryStatus.retired;
  published_version = some 1;
  created_at = 1;
  updated_at = 5;
}

abbrev published_version_1 : RepositoryVersionRecord
published_version_1 = record {
  id = "v1";
  entry_id = "n1";
  version = 1;
  kind = "notebook.report";
  source_hash = "aa";
  runner_image = "runner:1";
  validation_proof = field "ok" (bool true) end;
  approval_status = RepositoryStatus.published;
  status = RepositoryStatus.published;
  approved_by = some "bo";
  approved_at = some 3;
  published_at = some 4;
  created_at = 1;
  updated_at = 4;
}

abbrev draft_version_2 : RepositoryVersionRecord
draft_version_2 = record published_version_1 {
  id = "v2";
  version = 2;
  source_hash = "bb";
  validation_proof = end;
  approval_status = RepositoryStatus.draft;
  status = RepositoryStatus.draft;
  approved_by = none;
  approved_at = none;
  published_at = none;
}

abbrev validation : Review
validation = record {
  updated_at = 9;
  validation_proof = some (field "ok" (bool true) end);
  approved_by = none;
  approved_at = none;
  published_at = none;
}

abbrev small_catalog : Catalog
small_catalog = record {
  entries = shared_entry ∷ [];
  versions = published_version_1 ∷ draft_version_2 ∷ [];
  notebook_goblins = [];
  notebook_services = [];
}

abbrev catalog_calls : List CatalogCall
catalog_calls =
    transition_version "n1" 2 RepositoryStatus.validated validation
    ∷ transition_version "n1" 1 RepositoryStatus.retired validation
    ∷ update_version (record published_version_1 { status = RepositoryStatus.draft })
    ∷ []

perform_all-published_example :
    IsPublishedAt "n1" 1 published_version_1 (perform_all catalog_calls small_catalog)
unfolding goblin_king.Table.get_row goblin_king.Table.find_where get_repository_version
perform_all-published_example =
    perform_all-published catalog_calls small_catalog "n1" 1 published_version_1 (refl, (refl, tt))
      (refl, refl)

perform_all-IsVetted_example : All IsVetted (perform_all catalog_calls small_catalog).versions
perform_all-IsVetted_example =
    perform_all-IsVetted catalog_calls small_catalog ((λ _. (refl, refl, refl)), ((λ e. cc), tt))

-- The catalog before its second version, with its entry in use.
abbrev first_catalog : Catalog
first_catalog = record small_catalog {
  entries = (record shared_entry { status = RepositoryStatus.published }) ∷ [];
  versions = published_version_1 ∷ [];
}

abbrev second_catalog : Catalog
second_catalog = record small_catalog {
  entries = (record shared_entry { status = RepositoryStatus.draft; updated_at = 4 }) ∷ [];
}

create_repository_version-IsNext_example : IsNext draft_version_2 first_catalog second_catalog
unfolding create_repository_version latest_version check_sequence get_repository_version
    get_repository_entry goblin_king.Table.get_row goblin_king.Table.find_where
    goblin_king.Table.insert_row goblin_king.Table.update_where goblin_king.Table.order_by
    goblin_king.Table.select_where
create_repository_version-IsNext_example =
    create_repository_version-IsNext draft_version_2 draft_version_2 first_catalog second_catalog
      refl

-- The entry is retired, and a review step of its draft takes it out of retirement.
abbrev validated_version_2 : RepositoryVersionRecord
validated_version_2 = record draft_version_2 {
  status = RepositoryStatus.validated;
  approval_status = RepositoryStatus.validated;
  validation_proof = field "ok" (bool true) end;
  updated_at = 9;
}

abbrev revived_catalog : Catalog
revived_catalog = record small_catalog {
  entries = (record shared_entry { status = RepositoryStatus.validated; updated_at = 9 }) ∷ [];
  versions = published_version_1 ∷ validated_version_2 ∷ [];
}

-- A retired entry follows the review of a draft version.
transition_repository_version_status-entry_example :
    ((revived_catalog ≡ small_catalog)
      × (RepositoryStatus.validated ≡ RepositoryStatus.published)
      × (RepositoryStatus.validated ≡ RepositoryStatus.published)
      × (get_repository_version "n1" 2 small_catalog ≡ some validated_version_2))
    ⊎ IsStep "n1" 2 RepositoryStatus.validated validation small_catalog revived_catalog
unfolding transition_repository_version_status follow_version get_repository_version
    get_repository_entry goblin_king.Table.get_row goblin_king.Table.find_where
    goblin_king.Table.update_where reviewed stepped validate_repository_transition write_review
transition_repository_version_status-entry_example =
    transition_repository_version_status-entry "n1" 2 RepositoryStatus.validated validation
      validated_version_2 small_catalog revived_catalog refl

abbrev empty_catalog : Catalog
empty_catalog = record small_catalog { entries = []; versions = [] }

delete_repository_entry-IsDeleted_example :
    IsDeleted "n1" small_catalog empty_catalog
      (record { deleted_versions = 2; deleted_notebook_records = 0 })
unfolding delete_repository_entry get_repository_entry goblin_king.Table.get_row
    goblin_king.Table.delete_where goblin_king.Table.row_count
delete_repository_entry-IsDeleted_example =
    delete_repository_entry-IsDeleted "n1" small_catalog empty_catalog
      (record { deleted_versions = 2; deleted_notebook_records = 0 }) refl
