-- ===== src/Catalog/Removal.antt =====
-- What the deletion of an entry removes (`delete_repository_entry` of store.py).
use goblin_king.Base.{
  ℕ, String, ◌==◌, eq_iff, ◌≡◌, true, false, not, none, some, arith, ok, All, All-map,
}
use goblin_king.Table.{delete_where, row_count}
use goblin_king.Table.Search.{
  find_where-select_where, select_where-passes, get_row-select_where, get_row-select_where-none,
}
use goblin_king.Catalog.State.{
  Catalog, entry_key, is_version, get_repository_entry, get_repository_version,
}
use goblin_king.Catalog.Entries.{Deletion, delete_repository_entry, is_deletable}

pub record IsDeleted (entry_id : String) (catalog after : Catalog) (report : Deletion)
    : Type 0 where
  -- the entry was there, in a status that may be deleted
  pub allowed :
      elim (get_repository_entry entry_id catalog) [
        | none ↦ false
        | some entry ↦ is_deletable entry.status
      ]
      ≡ true
  -- the entry and its versions are gone, and the versions were counted
  pub gone : get_repository_entry entry_id after ≡ none
  pub no_versions : All (λ row. (row.entry_id == entry_id) ≡ false) after.versions
  pub counted :
      report.deleted_versions ≡ row_count (λ row. row.entry_id == entry_id) catalog.versions
  -- the other entries and their versions are found as before
  pub entries_kept :
      (other : String)
      → (other == entry_id) ≡ false
      → get_repository_entry other after ≡ get_repository_entry other catalog
  pub versions_kept :
      (other : String) (number : ℕ)
      → (other == entry_id) ≡ false
      → get_repository_version other number after ≡ get_repository_version other number catalog

-- The two tables after a deletion, and the report.
removed :
    (entry_id : String) (catalog after : Catalog) (report : Deletion)
    → delete_repository_entry entry_id catalog ≡ ok (after, report)
    → (elim (get_repository_entry entry_id catalog) [
      | none ↦ false
      | some entry ↦ is_deletable entry.status
    ]
        ≡ true)
      × (after.entries ≡ delete_where (λ row. row.id == entry_id) catalog.entries)
      × (after.versions ≡ delete_where (λ row. row.entry_id == entry_id) catalog.versions)
      × (report.deleted_versions ≡ row_count (λ row. row.entry_id == entry_id) catalog.versions)
unfolding delete_repository_entry
removed entry_id catalog after report h = ground arith

-- A deletion that succeeds was of an entry in a status that may be deleted; it removes the entry and
-- exactly its versions, which it counts, and leaves every other entry and its versions.
pub delete_repository_entry-IsDeleted :
    (entry_id : String) (catalog after : Catalog) (report : Deletion)
    → delete_repository_entry entry_id catalog ≡ ok (after, report)
    → IsDeleted entry_id catalog after report
unfolding get_repository_entry get_repository_version delete_where
delete_repository_entry-IsDeleted entry_id catalog after report h =
    let (allowed, entries, versions, counted) = removed entry_id catalog after report h in
    record {
      allowed = allowed;
      gone = rw entries (
          get_row-select_where-none entry_key entry_id (λ row. not (row.id == entry_id))
            catalog.entries (λ x e. ground (arith, eq_iff x.id entry_id)));
      no_versions = rw versions (
          All-map _ _ (λ row e. ground arith) _
            (select_where-passes (λ row. not (row.entry_id == entry_id)) catalog.versions));
      counted = counted;
      entries_kept = λ other e. rw entries (
          get_row-select_where entry_key other (λ row. not (row.id == entry_id)) catalog.entries
            (λ x f. ground (arith, eq_iff x.id entry_id, eq_iff other entry_id)));
      versions_kept = λ other number e. rw versions (
          find_where-select_where (is_version other number) (λ row. not (row.entry_id == entry_id))
            catalog.versions
            (λ x f.
              ground (
                arith,
                eq_iff x.entry_id entry_id,
                eq_iff x.entry_id other,
                eq_iff other entry_id,
              )));
    }
