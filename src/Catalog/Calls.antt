-- ===== src/Catalog/Calls.antt =====
-- The catalog's methods as calls: a caller issues them in any order, and one that raises is rolled
-- back (`engine.begin()` in store.py). A deletion, which removes versions, is left out here.
use goblin_king.Base.{ℕ, String, Option, List, [], ◌∷◌, Result, ok, raise}
use goblin_king.Contracts.{RepositoryEntryRecord, RepositoryVersionRecord, RepositoryStatus}
use goblin_king.Catalog.State.{Catalog, CatalogError}
use goblin_king.Catalog.Entries.{
  create_repository_entry, update_repository_entry, transition_repository_entry_status,
}
use goblin_king.Catalog.Review.{Review}
use goblin_king.Catalog.Versions.{
  create_repository_version, update_repository_version, transition_repository_version_status,
}

pub data CatalogCall : Type 0 where
  create_entry update_entry : RepositoryEntryRecord → CatalogCall
  transition_entry : String → RepositoryStatus → ℕ → Option ℕ → CatalogCall
  create_version update_version : RepositoryVersionRecord → CatalogCall
  transition_version : String → ℕ → RepositoryStatus → Review → CatalogCall

-- The catalog of an outcome; of an error, the catalog before the call.
abbrev pub settled : {A : Type 0} → Catalog → Result CatalogError (Catalog × A) → Catalog
settled catalog (ok done) = done.0
settled catalog (raise _) = catalog

abbrev settled_only : Catalog → Result CatalogError Catalog → Catalog
settled_only catalog (ok done) = done
settled_only catalog (raise _) = catalog

abbrev pub perform : CatalogCall → Catalog → Catalog
perform (create_entry entry) catalog = settled catalog (create_repository_entry entry catalog)
perform (update_entry entry) catalog = settled catalog (update_repository_entry entry catalog)
perform (transition_entry entry_id status updated_at number) catalog =
    settled_only catalog
      (transition_repository_entry_status entry_id status updated_at number catalog)
perform (create_version version) catalog =
    settled catalog (create_repository_version version catalog)
perform (update_version version) catalog =
    settled catalog (update_repository_version version catalog)
perform (transition_version entry_id number status review) catalog =
    settled catalog (transition_repository_version_status entry_id number status review catalog)

unfoldable pub perform_all : List CatalogCall → Catalog → Catalog
perform_all [] catalog = catalog
perform_all (call ∷ calls) catalog = perform_all calls (perform call catalog)
