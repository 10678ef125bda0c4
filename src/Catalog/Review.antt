-- ===== src/Catalog/Review.antt =====
-- The columns of a version after a review step (`transition_repository_version_status`).
use goblin_king.Base.{
  ℕ, String, ◌==◌, Bool, true, not, ◌||◌, Option, none, some, is_some, Result, ok, raise,
  if◌then◌else◌, or_option, or_else,
}
use goblin_king.Contracts.{RepositoryVersionRecord, RepositoryStatus, Fields, end, is_empty}
use goblin_king.Catalog.State.{CatalogError, needs_approval, needs_proof, needs_approver}

-- `a or b` of two optional texts: an empty text is falsy.
abbrev pub or_text : Option String → Option String → Option String
or_text none b = b
or_text (some a) b = if a == "" then b else some a

abbrev pub is_blank : Option String → Bool
is_blank none = true
is_blank (some a) = a == ""

-- What a review step was given.
pub record Review : Type 0 where
  pub updated_at : ℕ
  pub validation_proof : Option Fields
  pub approved_by : Option String
  pub approved_at : Option ℕ
  pub published_at : Option ℕ

-- The columns that every step sets.
unfoldable pub stepped :
    RepositoryStatus → Review → RepositoryVersionRecord → RepositoryVersionRecord
stepped status review existing = record existing {
  status = status;
  updated_at = review.updated_at;
  validation_proof = or_else review.validation_proof existing.validation_proof;
}

-- The columns that a cleared review sets.
unfoldable pub cleared : RepositoryStatus → RepositoryVersionRecord → RepositoryVersionRecord
cleared status row = record row { approval_status = status; approved_by = none; approved_at = none }

-- The row after a status change, by the target status.
unfoldable pub reviewed :
    RepositoryStatus
    → Review
    → RepositoryVersionRecord
    → Result CatalogError RepositoryVersionRecord
unfolding stepped cleared
reviewed RepositoryStatus.draft review existing =
    ok (record (cleared RepositoryStatus.draft (stepped RepositoryStatus.draft review existing)) {
      validation_proof = end;
      published_at = none;
    })
reviewed RepositoryStatus.rejected review existing =
    ok (cleared RepositoryStatus.rejected (stepped RepositoryStatus.rejected review existing))
reviewed RepositoryStatus.retired review existing =
    ok (cleared RepositoryStatus.retired (stepped RepositoryStatus.retired review existing))
reviewed RepositoryStatus.validated review existing =
    let row = stepped RepositoryStatus.validated review existing in
    if is_empty row.validation_proof
    then raise needs_proof
    else ok (record row { approval_status = RepositoryStatus.validated })
reviewed RepositoryStatus.pending_review review existing =
    ok (record (stepped RepositoryStatus.pending_review review existing) {
      approval_status = RepositoryStatus.pending_review;
    })
reviewed RepositoryStatus.approved review existing =
    let approver = or_text review.approved_by existing.approved_by in
    if is_blank approver
    then raise needs_approver
    else ok (record (stepped RepositoryStatus.approved review existing) {
      approval_status = RepositoryStatus.approved;
      approved_by = approver;
      approved_at =
          some (or_else (or_option review.approved_at existing.approved_at) review.updated_at);
    })
reviewed RepositoryStatus.published review existing =
    let approver = or_text review.approved_by existing.approved_by in
    let approved_time = or_option review.approved_at existing.approved_at in
    if is_blank approver || not (is_some approved_time)
    then raise needs_approval
    else ok (record (stepped RepositoryStatus.published review existing) {
      approval_status = RepositoryStatus.published;
      approved_by = approver;
      approved_at = approved_time;
      published_at = some (or_else review.published_at review.updated_at);
    })
