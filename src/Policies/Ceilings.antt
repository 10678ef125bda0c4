-- ===== src/Policies/Ceilings.antt =====
-- An effective policy keeps to the ceilings (validate_within_ceilings, effective_for).
use goblin_king.Base.{
  ℕ, ◌≤◌, String, false, Option, none, some, ◌≡◌, refl, arith, ok, bind-ok, raise_if-ok,
  raise_if-passed,
}
use goblin_king.Policies.{
  ResourcePolicy, exceeds, greater, parsed_cpu, parsed_bytes, validate_within_ceilings,
}
use goblin_king.Policies.Quantity.{Floats}

-- A value that is there is at most a maximum that is there.
abbrev pub AtMost : (value max_value : Option ℕ) → Type 0
AtMost (some value) (some max_value) = value ≤ max_value
AtMost _ _ = Unit

exceeds-AtMost :
    (value max_value : Option ℕ) → exceeds greater value max_value ≡ false → AtMost value max_value
exceeds-AtMost none max_value h = tt
exceeds-AtMost (some value) none h = tt
exceeds-AtMost (some value) (some max_value) h = ground arith

AtMost-exceeds :
    (value max_value : Option ℕ) → AtMost value max_value → exceeds greater value max_value ≡ false
AtMost-exceeds none max_value h = refl
AtMost-exceeds (some value) none h = refl
AtMost-exceeds (some value) (some max_value) h = ground arith

-- The ten limits, of which two are compared as quantities.
pub record IsWithin {F : Type 0} (floats : Floats F) (ceilings policy : ResourcePolicy)
    : Type 0 where
  pub timeout_seconds : AtMost policy.timeout_seconds ceilings.timeout_seconds
  pub max_retries : AtMost policy.max_retries ceilings.max_retries
  pub cpu :
      (cpu max_cpu : Option F) × (parsed_cpu floats policy.cpu.limit ≡ ok cpu)
      × (parsed_cpu floats ceilings.cpu.limit ≡ ok max_cpu)
      × (exceeds floats.gt cpu max_cpu ≡ false)
  pub memory :
      (memory max_memory : Option ℕ) × (parsed_bytes policy.memory.limit ≡ ok memory)
      × (parsed_bytes ceilings.memory.limit ≡ ok max_memory)
      × AtMost memory max_memory
  pub pids_limit : AtMost policy.process.pids_limit ceilings.process.pids_limit
  pub artifact_max_bytes :
      AtMost policy.filesystem.artifact_max_bytes ceilings.filesystem.artifact_max_bytes
  pub artifact_max_files :
      AtMost policy.filesystem.artifact_max_files ceilings.filesystem.artifact_max_files
  pub log_max_bytes : AtMost policy.logs.max_bytes ceilings.logs.max_bytes
  pub max_running : AtMost policy.concurrency.max_running ceilings.concurrency.max_running
  pub max_project_running :
      AtMost policy.concurrency.max_project_running ceilings.concurrency.max_project_running

module _ {F : Type 0} (floats : Floats F) (ceilings : ResourcePolicy) (kind : String)
    (policy : ResourcePolicy) where
  pub validate_within_ceilings-IsWithin :
      validate_within_ceilings floats ceilings kind policy ≡ ok tt → IsWithin floats ceilings policy
  unfolding validate_within_ceilings
  validate_within_ceilings-IsWithin h =
      let (cpu, cpu_ok, h1) = bind-ok (parsed_cpu floats policy.cpu.limit) _ tt h in
      let (max_cpu, max_cpu_ok, h2) = bind-ok (parsed_cpu floats ceilings.cpu.limit) _ tt h1 in
      let (memory, memory_ok, h3) = bind-ok (parsed_bytes policy.memory.limit) _ tt h2 in
      let (max_memory, max_memory_ok, h4) = bind-ok (parsed_bytes ceilings.memory.limit) _ tt h3 in
      let (c0, k0) = raise_if-ok _ _ _ tt h4 in
      let (c1, k1) = raise_if-ok _ _ _ tt k0 in
      let (c2, k2) = raise_if-ok _ _ _ tt k1 in
      let (c3, k3) = raise_if-ok _ _ _ tt k2 in
      let (c4, k4) = raise_if-ok _ _ _ tt k3 in
      let (c5, k5) = raise_if-ok _ _ _ tt k4 in
      let (c6, k6) = raise_if-ok _ _ _ tt k5 in
      let (c7, k7) = raise_if-ok _ _ _ tt k6 in
      let (c8, k8) = raise_if-ok _ _ _ tt k7 in
      record {
        timeout_seconds = exceeds-AtMost _ _ c0;
        max_retries = exceeds-AtMost _ _ c1;
        cpu = (cpu, max_cpu, cpu_ok, max_cpu_ok, c2);
        memory =
            (memory, max_memory, memory_ok, max_memory_ok, exceeds-AtMost memory max_memory c3);
        pids_limit = exceeds-AtMost _ _ c4;
        artifact_max_bytes = exceeds-AtMost _ _ c5;
        artifact_max_files = exceeds-AtMost _ _ c6;
        log_max_bytes = exceeds-AtMost _ _ c7;
        max_running = exceeds-AtMost _ _ c8;
        max_project_running = exceeds-AtMost _ _ (raise_if-passed _ _ k8);
      }

  pub IsWithin-validate_within_ceilings :
      IsWithin floats ceilings policy → validate_within_ceilings floats ceilings kind policy ≡ ok tt
  unfolding validate_within_ceilings
  IsWithin-validate_within_ceilings within =
      let (cpu, max_cpu, cpu_ok, max_cpu_ok, cpu_fits) = within.cpu in
      let (memory, max_memory, memory_ok, max_memory_ok, memory_fits) = within.memory in
      let timeout_seconds =
        AtMost-exceeds policy.timeout_seconds ceilings.timeout_seconds within.timeout_seconds in
      let max_retries = AtMost-exceeds policy.max_retries ceilings.max_retries within.max_retries in
      let pids_limit =
        AtMost-exceeds policy.process.pids_limit ceilings.process.pids_limit within.pids_limit in
      let artifact_max_bytes =
        AtMost-exceeds policy.filesystem.artifact_max_bytes ceilings.filesystem.artifact_max_bytes
          within.artifact_max_bytes in
      let artifact_max_files =
        AtMost-exceeds policy.filesystem.artifact_max_files ceilings.filesystem.artifact_max_files
          within.artifact_max_files in
      let log_max_bytes =
        AtMost-exceeds policy.logs.max_bytes ceilings.logs.max_bytes within.log_max_bytes in
      let max_running =
        AtMost-exceeds policy.concurrency.max_running ceilings.concurrency.max_running
          within.max_running in
      let max_project_running =
        AtMost-exceeds policy.concurrency.max_project_running
          ceilings.concurrency.max_project_running within.max_project_running in
      rw
        (
          cpu_ok,
          max_cpu_ok,
          memory_ok,
          max_memory_ok,
          timeout_seconds,
          max_retries,
          cpu_fits,
          AtMost-exceeds memory max_memory memory_fits,
          pids_limit,
          artifact_max_bytes,
          artifact_max_files,
          log_max_bytes,
          max_running,
          max_project_running,
        )
        refl
