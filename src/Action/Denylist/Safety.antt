-- ===== src/Action/Denylist/Safety.antt =====
-- The denylist against a description of the steps that are safe, field by field.
use intelliops.Base.{
  pos, negsuc, ◌≤ℤ◌, false, Option, none, some, List, [], ◌∷◌, ◌++◌, ◌≡◌, ◌≢◌, ◌↔◌, ◌⊎◌, refl,
  Floats, All, arith,
}
use intelliops.Contracts.{
  RemediationStep, Playbook, StepAction, scale, patch_resource_limits, rollback_to_revision,
  patch_probe,
}
use intelliops.Action.Denylist.{
  cpu_millicores, mem_mebibytes, limits_reason, probe_reason, step_reason, first_reason,
  denylist_reason, min_cpu_millicores, min_mem_mebibytes,
}

-- A bound that an absent value meets.
abbrev pub Within {ℓ κ} : {A : Type ℓ} → (A → Type κ) → Option A → Type κ
Within P none = Unit
Within P (some a) = P a

module _ (fl : Floats) where
  open fl use {F, lt}

  abbrev pub NotBelow : F → F → Type 0
  NotBelow floor x = lt x floor ≡ false

  -- What each kind of step has to meet.
  abbrev pub IsSafe : StepAction → RemediationStep → Type 0
  IsSafe scale s = Within (λ r. negsuc 8 ≤ℤ r) s.replicas
  IsSafe patch_resource_limits s =
      ((s.cpu_limit ≢ none) ⊎ (s.mem_limit ≢ none))
      × Within (NotBelow (min_cpu_millicores fl)) (cpu_millicores fl s.cpu_limit)
      × Within (NotBelow (min_mem_mebibytes fl)) (mem_mebibytes fl s.mem_limit)
  IsSafe patch_probe s =
      (s.probe ≢ none)
      × Within (λ n. pos 1 ≤ℤ n) s.failure_threshold
      × Within (λ n. pos 1 ≤ℤ n) s.period_seconds
      × Within (λ n. pos 1 ≤ℤ n) s.timeout_seconds
      × Within (λ n. pos 0 ≤ℤ n) s.initial_delay_seconds
  IsSafe rollback_to_revision s = s.revision ≢ none
  IsSafe _ s = Unit

  step-IsSafe : (a : StepAction) (s : RemediationStep) → step_reason fl a s ≡ none → IsSafe a s
  unfolding step_reason limits_reason probe_reason
  step-IsSafe scale s h = ground arith
  step-IsSafe patch_resource_limits s h = ground arith
  step-IsSafe patch_probe s h = ground arith
  step-IsSafe rollback_to_revision s h = ground arith
  step-IsSafe _ s h = tt

  IsSafe-step : (a : StepAction) (s : RemediationStep) → IsSafe a s → step_reason fl a s ≡ none
  unfolding step_reason limits_reason probe_reason
  IsSafe-step scale s h = ground arith
  IsSafe-step patch_resource_limits s h = ground arith
  IsSafe-step patch_probe s h = ground arith
  IsSafe-step rollback_to_revision s h = ground arith
  IsSafe-step _ s h = refl

  abbrev pub AllSafe : List RemediationStep → Type 0
  AllSafe = All (λ s. IsSafe s.action s)

  first_reason-none : (steps : List RemediationStep) → first_reason fl steps ≡ none → AllSafe steps
  unfolding first_reason
  first_reason-none [] h = tt
  first_reason-none (s ∷ steps) h = ground (arith, step-IsSafe s.action s, first_reason-none steps)

  none-first_reason : (steps : List RemediationStep) → AllSafe steps → first_reason fl steps ≡ none
  unfolding first_reason
  none-first_reason [] h = refl
  none-first_reason (s ∷ steps) (here, later) =
      ground (arith, IsSafe-step s.action s here, none-first_reason steps later)

  -- The denylist lets a playbook through exactly when every step and every rollback step is safe.
  pub denylist_reason-none_iff :
      (playbook : Playbook)
      → (denylist_reason fl playbook ≡ none) ↔ AllSafe (playbook.steps ++ playbook.rollback_steps)
  unfolding denylist_reason
  denylist_reason-none_iff playbook = (
    first_reason-none (playbook.steps ++ playbook.rollback_steps),
    none-first_reason (playbook.steps ++ playbook.rollback_steps),
  )
