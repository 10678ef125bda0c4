-- ===== src/Catalog/Numbering.antt =====
-- The numbers of an entry's versions, and that a new one is the next.
use goblin_king.Base.{
  String, ◌==◌, eq_refl, ◌≡◌, Bool, true, false, not, none, some, List, [], ◌∷◌, ◌++◌, arith, leb,
  ltb, Option-cases, Result-cases, inl, inr, ok, All, All-map,
}
use goblin_king.Contracts.{RepositoryVersionRecord, RepositoryStatus}
use goblin_king.Table.{find_where, insert_row, select_where, order_by}
use goblin_king.Table.Laws.{insert_row-eq_some}
use goblin_king.Table.Sorted.{order_by-IsSorted, order_by-All, IsSorted}
use goblin_king.Table.Search.{select_where-All}
use goblin_king.Catalog.State.{
  Catalog, version_key, is_version, get_repository_entry, get_repository_version,
}
use goblin_king.Catalog.Transition.{same_status}
use goblin_king.Catalog.Versions.{create_repository_version, latest_version, check_sequence}

-- What holds of the head of a sorted table, and of each row behind it.
head-All :
    (rows : List RepositoryVersionRecord) (latest : RepositoryVersionRecord)
    → IsSorted (λ a b. leb b.version a.version) rows
    → (elim rows [ [] ↦ none | row ∷ _ ↦ some row ]) ≡ some latest
    → All (λ row. leb row.version latest.version ≡ true) rows
head-All [] latest s h = cc
head-All (x ∷ rows) latest s h = (ground arith, All-map _ _ (λ y e. ground arith) rows s.0)

-- The latest version's number is the highest.
latest_version-highest :
    (entry_id : String) (t : List RepositoryVersionRecord) (latest : RepositoryVersionRecord)
    → latest_version entry_id t ≡ some latest
    → All (λ row. (row.entry_id == entry_id) ≡ true → leb row.version latest.version ≡ true) t
unfolding latest_version
latest_version-highest entry_id t latest h =
    let before : RepositoryVersionRecord → RepositoryVersionRecord → Bool =
      λ a b. leb b.version a.version in
    let own = select_where (λ row. row.entry_id == entry_id) t in
    select_where-All _ (λ row. row.entry_id == entry_id) t
      (order_by-All before _ own (
        head-All (order_by before own) latest
          (order_by-IsSorted before (λ a b e. ground arith) (λ a b c e f. ground arith) own) h))

no_head-All :
    (rows : List RepositoryVersionRecord)
    → (elim rows [ [] ↦ none | row ∷ _ ↦ some row ]) ≡ none
    → All (λ row. true ≡ false) rows
no_head-All [] h = tt
no_head-All (x ∷ rows) h = cc

latest_version-none :
    (entry_id : String) (t : List RepositoryVersionRecord)
    → latest_version entry_id t ≡ none
    → All (λ row. (row.entry_id == entry_id) ≡ true → true ≡ false) t
unfolding latest_version
latest_version-none entry_id t h =
    let before : RepositoryVersionRecord → RepositoryVersionRecord → Bool =
      λ a b. leb b.version a.version in
    let own = select_where (λ row. row.entry_id == entry_id) t in
    select_where-All _ (λ row. row.entry_id == entry_id) t
      (order_by-All before _ own (no_head-All (order_by before own) h))

-- A version that was created is a draft of a live entry, numbered above every other version of the
-- entry, and the lookup of its number finds it.
pub record IsNext (version : RepositoryVersionRecord) (catalog after : Catalog) : Type 0 where
  pub live :
      elim (get_repository_entry version.entry_id catalog) [
        | none ↦ false
        | some entry ↦ not (same_status entry.status RepositoryStatus.retired)
      ]
      ≡ true
  pub above :
      All
        (λ row. (row.entry_id == version.entry_id) ≡ true → ltb row.version version.version ≡ true)
        catalog.versions
  pub found : get_repository_version version.entry_id version.version after ≡ some version

find_where-last :
    (p : RepositoryVersionRecord → Bool) (t : List RepositoryVersionRecord)
    (x : RepositoryVersionRecord)
    → find_where p t ≡ none
    → p x ≡ true
    → find_where p (t ++ x ∷ []) ≡ some x
unfolding find_where
find_where-last p [] x h e = ground arith
find_where-last p (y ∷ t) x h e = ground (arith, find_where-last p t x)

check_sequence-above :
    (version : RepositoryVersionRecord) (t : List RepositoryVersionRecord)
    → check_sequence version (latest_version version.entry_id t) ≡ ok tt
    → All
        (λ row. (row.entry_id == version.entry_id) ≡ true → ltb row.version version.version ≡ true)
        t
unfolding check_sequence
check_sequence-above version t h = elim (Option-cases (latest_version version.entry_id t)) [
  | inl e ↦
      All-map _ _ (λ row f m. ground (arith, f m)) t (latest_version-none version.entry_id t e)
  | inr (latest, e) ↦
      All-map _ _ (λ row f m. ground (arith, f m)) t
        (latest_version-highest version.entry_id t latest e)
]

-- A version that is created belongs to an entry that is there and not retired, has a number above
-- each of the entry's versions, and is found under its number.
pub create_repository_version-IsNext :
    (version row : RepositoryVersionRecord) (catalog after : Catalog)
    → create_repository_version version catalog ≡ ok (after, row)
    → IsNext version catalog after
unfolding create_repository_version get_repository_version
create_repository_version-IsNext version row catalog after h =
    elim (Option-cases (get_repository_entry version.entry_id catalog)) [
      | inl e ↦ ground arith
      | inr (entry, e) ↦ elim (Option-cases (insert_row version_key version catalog.versions)) [
        | inl n ↦ ground arith
        | inr (versions, n) ↦
            let (free, appended) =
              insert_row-eq_some version_key version catalog.versions versions n in
            record {
              live = rw e (ground arith);
              above =
                  elim (Result-cases
                    (check_sequence version (latest_version version.entry_id catalog.versions))) [
                      | inl (_, m) ↦ check_sequence-above version catalog.versions m
                      | inr (_, m) ↦ ground arith
                    ];
              found =
                  elim (Option-cases
                    (get_repository_version version.entry_id version.version catalog)) [
                      | inl m ↦ ground (
                        arith,
                        eq_refl version.entry_id,
                        find_where-last (is_version version.entry_id version.version)
                            catalog.versions version,
                      )
                      | inr (_, m) ↦ ground arith
                    ];
            }
      ]
    ]
