-- ===== src/Policies/Effective.antt =====
-- What `effective_for` returns: the merged document, validated, within every ceiling, with the
-- request's own values; and what a job carries of it (`policy_from_job_metadata`).
use goblin_king.Base.{
  ℕ, String, Option, none, some, ◌≡◌, refl, ap, ◌∙◌, arith, ok, raise, ◌>>◌, bind-ok, ◌↔◌, subst,
}
use goblin_king.Base.Int.{pos}
use goblin_king.Contracts.{
  num, obj, Fields, get_field, get_field-set_field_same, get_field-set_field_other,
}
use goblin_king.Policies.{
  ResourcePolicy, ResourcePolicySet, PolicyCodec, invalid_policy, validate_within_ceilings,
  effective_for, merged_policy,
}
use goblin_king.Policies.Quantity.{Floats}
use goblin_king.Policies.Ceilings.{
  IsWithin, AtMost, validate_within_ceilings-IsWithin, IsWithin-validate_within_ceilings,
}

module _ {F : Type 0} (floats : Floats F) (codec : PolicyCodec) (policies : ResourcePolicySet)
    (kind : String) (timeout_seconds max_retries : Option ℕ) (policy : ResourcePolicy) where
  abbrev Resolves : Type 0
  Resolves = effective_for floats codec policies kind timeout_seconds max_retries ≡ ok policy

  after_validation :
      (found : Option ResourcePolicy)
      → (elim found [
        | none ↦ raise invalid_policy
        | some p ↦ validate_within_ceilings floats policies.ceilings kind p >> ok p
      ])
        ≡ ok policy
      → (found ≡ some policy)
        × (validate_within_ceilings floats policies.ceilings kind policy ≡ ok tt)
  after_validation none h = ground arith
  after_validation (some p) h =
      let (_, valid, same) =
        bind-ok (validate_within_ceilings floats policies.ceilings kind p) (λ _. ok p) policy h in
      let it : p ≡ policy = ground arith in
      (
        ap some it,
        subst (λ q. validate_within_ceilings floats policies.ceilings kind q ≡ ok tt) it valid,
      )

  after_validation_returns :
      (found : Option ResourcePolicy)
      → found ≡ some policy
      → validate_within_ceilings floats policies.ceilings kind policy ≡ ok tt
      → (elim found [
        | none ↦ raise invalid_policy
        | some p ↦ validate_within_ceilings floats policies.ceilings kind p >> ok p
      ])
        ≡ ok policy
  after_validation_returns found same valid = rw (same, valid) refl

  effective_for-resolved :
      Resolves
      → (codec.model_validate (obj (merged_policy codec policies kind timeout_seconds max_retries))
          ≡ some policy)
        × IsWithin floats policies.ceilings policy
  unfolding effective_for
  effective_for-resolved h =
      let (found, valid) =
        after_validation
          (codec.model_validate
            (obj (merged_policy codec policies kind timeout_seconds max_retries)))
          h in
      (found, validate_within_ceilings-IsWithin floats policies.ceilings kind policy valid)

  effective_for_returns :
      codec.model_validate (obj (merged_policy codec policies kind timeout_seconds max_retries))
        ≡ some policy
      → IsWithin floats policies.ceilings policy
      → Resolves
  unfolding effective_for
  effective_for_returns found within =
      after_validation_returns
        (codec.model_validate (obj (merged_policy codec policies kind timeout_seconds max_retries)))
        found (IsWithin-validate_within_ceilings floats policies.ceilings kind policy within)

  -- A policy is returned exactly if it is the validated merge of the defaults, the goblin's
  -- override and the request's values, and keeps to each of the ten ceilings.
  pub effective_for-IsWithin :
      (effective_for floats codec policies kind timeout_seconds max_retries ≡ ok policy)
      ↔ (codec.model_validate (obj (merged_policy codec policies kind timeout_seconds max_retries))
          ≡ some policy)
        × IsWithin floats policies.ceilings policy
  effective_for-IsWithin = (effective_for-resolved, λ h. effective_for_returns h.0 h.1)

-- pydantic reads a number under a field's name into that field.
pub record ReadsNumbers (codec : PolicyCodec) : Type 0 where
  pub timeout_seconds :
      (fields : Fields) (n : ℕ) (policy : ResourcePolicy)
      → get_field "timeout_seconds" fields ≡ some (num (pos n))
      → codec.model_validate (obj fields) ≡ some policy
      → policy.timeout_seconds ≡ some n
  pub max_retries :
      (fields : Fields) (n : ℕ) (policy : ResourcePolicy)
      → get_field "max_retries" fields ≡ some (num (pos n))
      → codec.model_validate (obj fields) ≡ some policy
      → policy.max_retries ≡ some n

-- A policy for a request with its own timeout and retries has these, and neither exceeds its ceiling,
-- where the validation reads the two numbers from their fields.
pub effective_for-requested :
    {F : Type 0} (floats : Floats F) (codec : PolicyCodec) (policies : ResourcePolicySet)
    (kind : String) (timeout_seconds max_retries : ℕ) (policy : ResourcePolicy)
    → ReadsNumbers codec
    → effective_for floats codec policies kind (some timeout_seconds) (some max_retries) ≡ ok policy
    → (policy.timeout_seconds ≡ some timeout_seconds)
      × (policy.max_retries ≡ some max_retries)
      × AtMost (some timeout_seconds) policies.ceilings.timeout_seconds
      × AtMost (some max_retries) policies.ceilings.max_retries
unfolding merged_policy
effective_for-requested floats codec policies kind timeout_seconds max_retries policy law h =
    let (found, within) =
      effective_for-resolved floats codec policies kind (some timeout_seconds) (some max_retries)
        policy h in
    let fields = merged_policy codec policies kind (some timeout_seconds) (some max_retries) in
    let timeout =
      law.timeout_seconds fields timeout_seconds policy
        (get_field-set_field_other "max_retries" "timeout_seconds" (num (pos max_retries)) _ refl
          ∙ get_field-set_field_same "timeout_seconds" (num (pos timeout_seconds)) _)
        found in
    let retries =
      law.max_retries fields max_retries policy
        (get_field-set_field_same "max_retries" (num (pos max_retries)) _) found in
    (
      timeout,
      retries,
      subst (λ v. AtMost v policies.ceilings.timeout_seconds) timeout within.timeout_seconds,
      subst (λ v. AtMost v policies.ceilings.max_retries) retries within.max_retries,
    )
