-- ===== src/Catalog/Followed.antt =====
-- What a review step of a version does to its entry (`transition_repository_version_status`).
use mathlib.Core.Option
use goblin_king.Base.{
  ℕ, String, ◌==◌, eq_iff, eq_refl, ◌≡◌, ◌≢◌, refl, subst, ◌⊎◌, true, false, some, arith,
  Bool-cases, Option-cases, Result-cases, inl, inr, ok, raise, Result, All-always, if◌then◌else◌,
}
use goblin_king.Contracts.{RepositoryEntryRecord, RepositoryVersionRecord, RepositoryStatus}
use goblin_king.Table.{get_row, update_where}
use goblin_king.Table.Laws.{get_row-update_where, get_row-key}
use goblin_king.Table.Search.{find_where-update_where, find_where-passes}
use goblin_king.Catalog.State.{
  Catalog, CatalogError, published_immutable, entry_key, is_version, get_repository_entry,
  get_repository_version,
}
use goblin_king.Catalog.Transition.{same_status}
use goblin_king.Catalog.Entries.{change_entry}
use goblin_king.Catalog.Review.{Review, reviewed}
use goblin_king.Catalog.Versions.{
  transition_repository_version_status, follow_version, write_review,
}

-- A change of one entry is what a lookup of that entry sees, and no other.
get_row-change_entry :
    (entry_id : String) (change : RepositoryEntryRecord → RepositoryEntryRecord) (catalog : Catalog)
    (k : String)
    → ((x : RepositoryEntryRecord) → (change x).id ≡ x.id)
    → get_row entry_key k (change_entry entry_id change catalog).entries ≡ (
        if entry_id == k
        then Option.map change (get_row entry_key k catalog.entries)
        else get_row entry_key k catalog.entries)
get_row-change_entry entry_id change catalog k keeps =
    let updated =
      get_row-update_where entry_key k (λ row. row.id == entry_id) change catalog.entries
        (λ x _. keeps x) in
    elim (Option-cases (get_row entry_key k catalog.entries)) [
      | inl e ↦ ground arith
      | inr (entry, e) ↦
          let same = get_row-key entry_key k catalog.entries entry e in
          ground (arith, eq_iff entry_id k, eq_iff entry.id entry_id)
    ]

reviewed-status :
    (status : RepositoryStatus) (review : Review) (existing row : RepositoryVersionRecord)
    → reviewed status review existing ≡ ok row
    → row.status ≡ status
unfolding reviewed
reviewed-status RepositoryStatus.draft review existing row h = ground arith
reviewed-status RepositoryStatus.rejected review existing row h = ground arith
reviewed-status RepositoryStatus.retired review existing row h = ground arith
reviewed-status RepositoryStatus.validated review existing row h = ground arith
reviewed-status RepositoryStatus.pending_review review existing row h = ground arith
reviewed-status RepositoryStatus.approved review existing row h = ground arith
reviewed-status RepositoryStatus.published review existing row h = ground arith

-- The entry's columns after a step to a status: the status, the time, and, exactly at a publication,
-- the version's number.
abbrev pub Follows :
    RepositoryStatus → (updated_at number : ℕ) → (entry entry' : RepositoryEntryRecord) → Type 0
Follows status updated_at number entry entry' =
    (entry'.status ≡ status)
    × (entry'.updated_at ≡ updated_at)
    × (status ≡ RepositoryStatus.published → entry'.published_version ≡ some number)
    × (status ≢ RepositoryStatus.published → entry'.published_version ≡ entry.published_version)

follow_version-Follows :
    (status : RepositoryStatus) (updated_at number : ℕ) (entry : RepositoryEntryRecord)
    → Follows status updated_at number entry (follow_version status updated_at number entry)
unfolding follow_version
follow_version-Follows RepositoryStatus.published updated_at number entry =
    (refl, refl, (λ e. refl), (λ n. absurd (n refl)))
follow_version-Follows RepositoryStatus.draft updated_at number entry =
    (refl, refl, (λ e. ground arith), (λ n. refl))
follow_version-Follows RepositoryStatus.validated updated_at number entry =
    (refl, refl, (λ e. ground arith), (λ n. refl))
follow_version-Follows RepositoryStatus.pending_review updated_at number entry =
    (refl, refl, (λ e. ground arith), (λ n. refl))
follow_version-Follows RepositoryStatus.approved updated_at number entry =
    (refl, refl, (λ e. ground arith), (λ n. refl))
follow_version-Follows RepositoryStatus.rejected updated_at number entry =
    (refl, refl, (λ e. ground arith), (λ n. refl))
follow_version-Follows RepositoryStatus.retired updated_at number entry =
    (refl, refl, (λ e. ground arith), (λ n. refl))

-- A step of a version from one catalog to the next: the version has the status, its entry follows
-- it, and no other entry changes.
pub record IsStep (entry_id : String) (number : ℕ) (status : RepositoryStatus) (review : Review)
    (catalog after : Catalog) : Type 0 where
  pub version : RepositoryVersionRecord
  pub found : get_repository_version entry_id number after ≡ some version
  pub reached : version.status ≡ status
  pub entry_after :
      (entry : RepositoryEntryRecord)
      → get_repository_entry entry_id catalog ≡ some entry
      → (entry' : RepositoryEntryRecord) × (get_repository_entry entry_id after ≡ some entry')
        × Follows status review.updated_at number entry entry'
  pub others :
      (k : String)
      → (entry_id == k) ≡ false
      → get_repository_entry k after ≡ get_repository_entry k catalog

-- The store that a step writes.
abbrev written :
    (entry_id : String) (number : ℕ) (status : RepositoryStatus) (review : Review)
    → RepositoryVersionRecord
    → Catalog
    → Catalog
written entry_id number status review row catalog =
    change_entry entry_id (follow_version status review.updated_at number) (record catalog {
      versions = update_where (is_version entry_id number) (write_review row) catalog.versions;
    })

written-IsStep :
    (entry_id : String) (number : ℕ) (status : RepositoryStatus) (review : Review)
    (existing row : RepositoryVersionRecord) (catalog : Catalog)
    → get_repository_version entry_id number catalog ≡ some existing
    → row.status ≡ status
    → IsStep entry_id number status review catalog
        (written entry_id number status review row catalog)
unfolding get_repository_version get_repository_entry
written-IsStep entry_id number status review existing row catalog e reached =
    let change = follow_version status review.updated_at number in
    let seen = λ (k : String).
      get_row-change_entry entry_id change
        (record catalog {
          versions = update_where (is_version entry_id number) (write_review row) catalog.versions;
        })
        k (λ x. unfold follow_version in refl) in
    let version =
      find_where-update_where (is_version entry_id number) (is_version entry_id number)
        (write_review row) catalog.versions
        (All-always (λ x m. unfold write_review in refl) catalog.versions) in
    let passes = find_where-passes (is_version entry_id number) catalog.versions existing e in
    record {
      version = write_review row existing;
      found = ground arith;
      reached = unfold write_review in reached;
      entry_after = λ entry there. (
        change entry,
        ground (arith, seen entry_id, eq_refl entry_id),
        follow_version-Follows status review.updated_at number entry,
      );
      others = λ k other. ground (arith, seen k);
    }

is_published :
    (status : RepositoryStatus)
    → same_status status RepositoryStatus.published ≡ true
    → status ≡ RepositoryStatus.published
is_published RepositoryStatus.published h = refl
is_published RepositoryStatus.draft h = ground arith
is_published RepositoryStatus.rejected h = ground arith
is_published RepositoryStatus.retired h = ground arith
is_published RepositoryStatus.validated h = ground arith
is_published RepositoryStatus.pending_review h = ground arith
is_published RepositoryStatus.approved h = ground arith

-- A step of a version that is published already.
abbrev repeated :
    RepositoryStatus
    → RepositoryVersionRecord
    → Catalog
    → Result CatalogError (Catalog × RepositoryVersionRecord)
repeated status existing catalog =
    if same_status status RepositoryStatus.published
    then ok (catalog, existing)
    else raise published_immutable

module _ (entry_id : String) (number : ℕ) where
  published_again :
      (existing : RepositoryVersionRecord) (status : RepositoryStatus)
      (row : RepositoryVersionRecord) (catalog after : Catalog)
      → get_repository_version entry_id number catalog ≡ some existing
      → same_status existing.status RepositoryStatus.published ≡ true
      → repeated status existing catalog ≡ ok (after, row)
      → (after ≡ catalog)
        × (status ≡ RepositoryStatus.published)
        × (row.status ≡ RepositoryStatus.published)
        × (get_repository_version entry_id number catalog ≡ some row)
  published_again existing status row catalog after e p h =
      elim (Bool-cases (same_status status RepositoryStatus.published)) [
        | inl s ↦
            let was = is_published existing.status p in
            (ground arith, is_published status s, ground arith, ground arith)
        | inr s ↦ absurd (ground arith)
      ]

-- A step that returns was either of a published version to published again, and changed nothing, or
-- has given the version its status, its entry the same status, whatever its own was, with the step's
-- time and, exactly at a publication, the version's number as its published one; all other entries
-- are as before.
pub transition_repository_version_status-entry :
    (entry_id : String) (number : ℕ) (status : RepositoryStatus) (review : Review)
    (row : RepositoryVersionRecord) (catalog after : Catalog)
    → transition_repository_version_status entry_id number status review catalog ≡ ok (after, row)
    → ((after ≡ catalog)
        × (status ≡ RepositoryStatus.published)
        × (row.status ≡ RepositoryStatus.published)
        × (get_repository_version entry_id number catalog ≡ some row))
      ⊎ IsStep entry_id number status review catalog after
unfolding transition_repository_version_status
transition_repository_version_status-entry entry_id number status review row catalog after h =
    elim (Option-cases (get_repository_version entry_id number catalog)) [
      | inl e ↦ absurd (ground arith)
      | inr (existing, e) ↦
          elim (Bool-cases (same_status existing.status RepositoryStatus.published)) [
            | inl p ↦ inl (
                published_again entry_id number existing status row catalog after e p
                  (ground arith))
            | inr p ↦ elim (Result-cases (reviewed status review existing)) [
              | inl (done, r) ↦
                  let same : written entry_id number status review done catalog ≡ after =
                    ground arith in
                  inr (
                    subst (λ c. IsStep entry_id number status review catalog c) same
                      (written-IsStep entry_id number status review existing done catalog e
                        (reviewed-status status review existing done r)))
              | inr (err, r) ↦ absurd (ground arith)
            ]
          ]
    ]
