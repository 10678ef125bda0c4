-- ===== src/Catalog/Published.antt =====
-- Published versions under the methods of the catalog: they stay as they are, and each was approved.
use goblin_king.Base.{
  ℕ, String, ◌==◌, eq_iff, ◌≡◌, refl, true, false, some, List, [], ◌∷◌, arith, Bool-cases, inl, inr,
  All, All-append, All-map, All-always, subst, sym,
}
use goblin_king.Contracts.{RepositoryVersionRecord, RepositoryStatus}
use goblin_king.Table.{get_row, find_where, update_where}
use goblin_king.Table.Laws.{IsKeyed, insert_row-eq_some, insert_row-IsKeyed, update_where-IsKeyed}
use goblin_king.Table.Search.{
  find_where-update_where, find_where-append, find_where-passes, find_where-All, get_row-only,
  update_where-All,
}
use goblin_king.Catalog.State.{Catalog, version_key, is_version, get_repository_version}
use goblin_king.Catalog.Transition.{same_status}
use goblin_king.Catalog.Versions.{same_identity, write_review}
use goblin_king.Catalog.Calls.{CatalogCall, perform, perform_all}
use goblin_king.Catalog.Changes.{
  VersionsChange, kept, added, replaced, stepped_to, IsVetted, perform-change, reviewed-IsVetted,
}

-- The version of a number is there, and is published.
abbrev pub IsPublishedAt : String → ℕ → RepositoryVersionRecord → Catalog → Type 0
IsPublishedAt entry_id number version catalog =
    (get_repository_version entry_id number catalog ≡ some version)
    × (same_status version.status RepositoryStatus.published ≡ true)

write_review-key :
    (reviewed_row row : RepositoryVersionRecord) → (write_review reviewed_row row).id ≡ row.id
unfolding write_review
write_review-key reviewed_row row = refl

write_review-version :
    (reviewed_row row : RepositoryVersionRecord) (entry_id : String) (number : ℕ)
    → is_version entry_id number (write_review reviewed_row row) ≡ is_version entry_id number row
unfolding write_review
write_review-version reviewed_row row entry_id number = refl

VersionsChange-IsKeyed :
    {catalog after : Catalog}
    → VersionsChange catalog after
    → IsKeyed version_key catalog.versions
    → IsKeyed version_key after.versions
VersionsChange-IsKeyed {catalog = c} (kept e) u = subst (IsKeyed version_key) (sym e) u
VersionsChange-IsKeyed {catalog = c} {after = d} (added version ins draft) u =
    insert_row-IsKeyed version_key version c.versions d.versions ins u
VersionsChange-IsKeyed {catalog = c} (replaced existing version found live same vetted e) u =
    subst (IsKeyed version_key) (sym e) (
      update_where-IsKeyed version_key (λ row. row.id == version.id) (λ _. version) c.versions
        (λ x h. ground (arith, eq_iff x.id version.id)) u)
VersionsChange-IsKeyed {catalog = c}
      (stepped_to entry_id number status review existing row found live r e) u =
    subst (IsKeyed version_key) (sym e) (
      update_where-IsKeyed version_key (is_version entry_id number) (write_review row) c.versions
        (λ x _. write_review-key row x) u)

-- A replacement of a version that is not published leaves a published one alone.
replaced-published :
    (entry_id : String) (number : ℕ) (version existing new : RepositoryVersionRecord)
    (t : List RepositoryVersionRecord)
    → IsKeyed version_key t
    → get_row version_key new.id t ≡ some existing
    → same_status existing.status RepositoryStatus.published ≡ false
    → same_identity existing new ≡ true
    → find_where (is_version entry_id number) t ≡ some version
    → same_status version.status RepositoryStatus.published ≡ true
    → find_where (is_version entry_id number) (update_where (λ row. row.id == new.id) (λ _. new) t)
      ≡ some version
unfolding same_identity
replaced-published entry_id number version existing new t u found live same h p =
    let only = get_row-only version_key new.id t existing u found in
    let other : (version.id == new.id) ≡ false =
      find_where-All _ (is_version entry_id number) t version
        (All-map _
          (λ x. same_status x.status RepositoryStatus.published ≡ true → (x.id == new.id) ≡ false)
          (λ x f q. ground arith) t only)
        h p in
    rw
      (
        find_where-update_where (is_version entry_id number) (λ row. row.id == new.id) (λ _. new) t
            (All-map _ _
              (λ x f m. ground (
                arith,
                eq_iff new.entry_id existing.entry_id,
                eq_iff existing.entry_id new.entry_id,
              ))
              t only),
        h,
        other,
      )
      refl

-- A review step of a version that is not published leaves a published one alone.
stepped_to-published :
    (entry_id entry_id' : String) (number number' : ℕ)
    (version existing row : RepositoryVersionRecord) (t : List RepositoryVersionRecord)
    → find_where (is_version entry_id' number') t ≡ some existing
    → same_status existing.status RepositoryStatus.published ≡ false
    → find_where (is_version entry_id number) t ≡ some version
    → same_status version.status RepositoryStatus.published ≡ true
    → find_where
        (is_version entry_id number)
        (update_where (is_version entry_id' number') (write_review row) t)
      ≡ some version
stepped_to-published entry_id entry_id' number number' version existing row t found live h p =
    let passes = find_where-passes (is_version entry_id number) t version h in
    let other : is_version entry_id' number' version ≡ false =
      elim (Bool-cases (is_version entry_id' number' version)) [
        | inl e ↦
            ground (arith, eq_iff version.entry_id entry_id, eq_iff version.entry_id entry_id')
        | inr e ↦ e
      ] in
    rw
      (
        find_where-update_where (is_version entry_id number) (is_version entry_id' number')
            (write_review row) t (All-always (λ x _. write_review-version row x entry_id number) t),
        h,
        other,
      )
      refl

VersionsChange-published :
    {catalog after : Catalog} (entry_id : String) (number : ℕ) (version : RepositoryVersionRecord)
    → VersionsChange catalog after
    → IsKeyed version_key catalog.versions
    → IsPublishedAt entry_id number version catalog
    → IsPublishedAt entry_id number version after
unfolding get_repository_version
VersionsChange-published entry_id number version (kept e) u (h, p) = (rw e h, p)
VersionsChange-published {catalog = c} {after = d} entry_id number version (added new ins draft) u
      (h, p) =
    let (_, e) = insert_row-eq_some version_key new c.versions d.versions ins in
    (rw e (find_where-append (is_version entry_id number) c.versions (new ∷ []) version h), p)
VersionsChange-published {catalog = c} entry_id number version
      (replaced existing new found live same vetted e) u (h, p) =
    (
      rw e (
          replaced-published entry_id number version existing new c.versions u found live same h p),
      p,
    )
VersionsChange-published {catalog = c} entry_id number version
      (stepped_to entry_id' number' status review existing row found live r e) u (h, p) =
    (
      rw e (
          stepped_to-published entry_id entry_id' number number' version existing row c.versions
            found live h p),
      p,
    )

VersionsChange-IsVetted :
    {catalog after : Catalog}
    → VersionsChange catalog after
    → All IsVetted catalog.versions
    → All IsVetted after.versions
unfolding write_review
VersionsChange-IsVetted (kept e) a = subst (All IsVetted) (sym e) a
VersionsChange-IsVetted {catalog = c} {after = d} (added new ins draft) a =
    let (_, e) = insert_row-eq_some version_key new c.versions d.versions ins in
    subst (All IsVetted) (sym e)
      (All-append IsVetted c.versions (new ∷ []) a (λ p. ground arith, tt))
VersionsChange-IsVetted {catalog = c} (replaced existing new found live same vetted e) a =
    subst (All IsVetted) (sym e) (
      update_where-All IsVetted (λ row. row.id == new.id) (λ _. new) c.versions (λ _ _ _. vetted) a)
VersionsChange-IsVetted {catalog = c}
      (stepped_to entry_id number status review existing row found live r e) a =
    subst (All IsVetted) (sym e) (
      update_where-All IsVetted (is_version entry_id number) (write_review row) c.versions
        (λ x _ _. reviewed-IsVetted status review existing row r) a)

-- A published version is found unchanged, in every column, under its entry and number after any
-- sequence of catalog calls other than deletions, where the ids of versions are distinct.
pub perform_all-published :
    (calls : List CatalogCall) (catalog : Catalog) (entry_id : String) (number : ℕ)
    (version : RepositoryVersionRecord)
    → IsKeyed version_key catalog.versions
    → IsPublishedAt entry_id number version catalog
    → IsPublishedAt entry_id number version (perform_all calls catalog)
unfolding perform_all
perform_all-published [] catalog entry_id number version u h = h
perform_all-published (call ∷ calls) catalog entry_id number version u h =
    let change = perform-change call catalog in
    perform_all-published calls (perform call catalog) entry_id number version
      (VersionsChange-IsKeyed change u)
      (VersionsChange-published entry_id number version change u h)

-- If each published version of a catalog has an approver, a time of approval and a time of
-- publication, then so has each after any sequence of catalog calls other than deletions.
pub perform_all-IsVetted :
    (calls : List CatalogCall) (catalog : Catalog)
    → All IsVetted catalog.versions
    → All IsVetted (perform_all calls catalog).versions
unfolding perform_all
perform_all-IsVetted [] catalog a = a
perform_all-IsVetted (call ∷ calls) catalog a =
    perform_all-IsVetted calls (perform call catalog)
      (VersionsChange-IsVetted (perform-change call catalog) a)
