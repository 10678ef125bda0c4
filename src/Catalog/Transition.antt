-- ===== src/Catalog/Transition.antt =====
-- The review's state machine: REPOSITORY_STATUS_TRANSITIONS and `_validate_repository_transition`.
use goblin_king.Base.{Bool, true, false, ◌||◌, Result, ok, raise, if◌then◌else◌}
use goblin_king.Contracts.{RepositoryStatus}
use goblin_king.Catalog.State.{CatalogError, bad_transition}

-- REPOSITORY_STATUS_TRANSITIONS
unfoldable pub allows : RepositoryStatus → RepositoryStatus → Bool
allows RepositoryStatus.draft RepositoryStatus.validated = true
allows RepositoryStatus.draft RepositoryStatus.rejected = true
allows RepositoryStatus.draft RepositoryStatus.retired = true
allows RepositoryStatus.validated RepositoryStatus.pending_review = true
allows RepositoryStatus.validated RepositoryStatus.rejected = true
allows RepositoryStatus.validated RepositoryStatus.retired = true
allows RepositoryStatus.pending_review RepositoryStatus.approved = true
allows RepositoryStatus.pending_review RepositoryStatus.rejected = true
allows RepositoryStatus.pending_review RepositoryStatus.retired = true
allows RepositoryStatus.approved RepositoryStatus.published = true
allows RepositoryStatus.approved RepositoryStatus.rejected = true
allows RepositoryStatus.approved RepositoryStatus.retired = true
allows RepositoryStatus.published RepositoryStatus.retired = true
allows RepositoryStatus.rejected RepositoryStatus.retired = true
allows _ _ = false

abbrev pub same_status : RepositoryStatus → RepositoryStatus → Bool
same_status RepositoryStatus.draft RepositoryStatus.draft = true
same_status RepositoryStatus.validated RepositoryStatus.validated = true
same_status RepositoryStatus.pending_review RepositoryStatus.pending_review = true
same_status RepositoryStatus.approved RepositoryStatus.approved = true
same_status RepositoryStatus.published RepositoryStatus.published = true
same_status RepositoryStatus.rejected RepositoryStatus.rejected = true
same_status RepositoryStatus.retired RepositoryStatus.retired = true
same_status _ _ = false

unfoldable pub validate_repository_transition :
    RepositoryStatus → RepositoryStatus → Result CatalogError (Unit {0})
unfolding allows
validate_repository_transition current target =
    if same_status current target || allows current target
    then ok tt
    else raise (bad_transition current target)
