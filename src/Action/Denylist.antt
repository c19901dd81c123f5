-- ===== src/Action/Denylist.antt =====
-- services/action/remediate.py, the destructive-shape denylist: `_cpu_millicores`,
-- `_mem_mebibytes` and `_denylist_reason`.
pub mod Safety
use intelliops.Base.{
  ℤ, pos, negsuc, ltb_ℤ, leb_ℤ, Bool, true, false, ◌||◌, String, Option, none, some, List, [], ◌∷◌,
  ◌++◌, Floats, before_suffix, strip, if◌then◌else◌,
}
use intelliops.Contracts.{
  RemediationStep, Playbook, StepAction, scale, patch_resource_limits, rollback_to_revision,
  patch_probe,
}

abbrev pub scale_takedown_delta : ℤ
scale_takedown_delta = negsuc 9

abbrev pub min_failure_threshold : ℤ
min_failure_threshold = pos 1

abbrev pub min_probe_period_seconds : ℤ
min_probe_period_seconds = pos 1

abbrev pub is_some {ℓ} : {A : Type ℓ} → Option A → Bool
is_some none = false
is_some (some _) = true

-- `v is not None and p(v)`
abbrev pub holds {ℓ} : {A : Type ℓ} → (A → Bool) → Option A → Bool
holds p none = false
holds p (some a) = p a

module _ (fl : Floats) where
  open fl use {F, lit, mul, div, parse, lt}

  abbrev min_cpu_millicores : F
  min_cpu_millicores = lit (pos 10) 0

  abbrev min_mem_mebibytes : F
  min_mem_mebibytes = lit (pos 16) 0

  abbrev unparseable : F
  unparseable = lit (negsuc 0) 0

  abbrev thousand : F
  thousand = lit (pos 1000) 0

  abbrev kibi : F
  kibi = lit (pos 1024) 0

  -- `float(text)`, scaled, inside the `try`
  abbrev scaled : (F → F) → String → F
  scaled f text = elim (parse text) [ none ↦ unparseable | some x ↦ f x ]

  abbrev by_suffix : String → String → (F → F) → F → F
  by_suffix suffix s f other = elim (before_suffix suffix s) [ none ↦ other | some n ↦ scaled f n ]

  unfoldable pub cpu_millicores : Option String → Option F
  cpu_millicores none = none
  cpu_millicores (some v) =
      let s = strip v in some (by_suffix "m" s (λ x. x) (scaled (λ x. mul x thousand) s))

  unfoldable pub mem_mebibytes : Option String → Option F
  mem_mebibytes none = none
  mem_mebibytes (some v) =
      let s = strip v in
      some (
        by_suffix "Gi" s (λ x. mul x kibi)
          (by_suffix "Mi" s (λ x. x)
            (by_suffix "Ki" s (λ x. div x kibi)
              (by_suffix "G" s
                (λ x. div (div (mul (mul (mul x thousand) thousand) thousand) kibi) kibi)
                (by_suffix "M" s (λ x. div (div (mul (mul x thousand) thousand) kibi) kibi)
                  (by_suffix "K" s (λ x. div (div (mul x thousand) kibi) kibi)
                    (scaled (λ x. div x (mul kibi kibi)) s)))))))

  unfoldable pub limits_reason : RemediationStep → Option String
  limits_reason step =
      let cpu = cpu_millicores step.cpu_limit in
      let mem = mem_mebibytes step.mem_limit in
      if holds (λ c. lt c min_cpu_millicores) cpu || holds (λ m. lt m min_mem_mebibytes) mem
      then some "denied:unsafe-limits"
      else if is_some step.cpu_limit || is_some step.mem_limit
      then none
      else some "denied:unsafe-limits"

  unfoldable pub probe_reason : RemediationStep → Option String
  probe_reason step =
      let below = holds (λ n. ltb_ℤ n min_probe_period_seconds) in
      if is_some step.probe
      then if holds (λ n. ltb_ℤ n min_failure_threshold) step.failure_threshold
          || below step.period_seconds
          || below step.timeout_seconds
          || holds (λ n. ltb_ℤ n (pos 0)) step.initial_delay_seconds
        then some "denied:unsafe-probe"
        else none
      else some "denied:unsafe-probe"

  -- One round of the loop of `_denylist_reason`.
  unfoldable pub step_reason : StepAction → RemediationStep → Option String
  step_reason scale step =
      if holds (λ r. leb_ℤ r scale_takedown_delta) step.replicas
      then some "denied:unsafe-scale"
      else none
  step_reason patch_resource_limits step = limits_reason step
  step_reason patch_probe step = probe_reason step
  step_reason rollback_to_revision step =
      if is_some step.revision then none else some "denied:unsafe-revision"
  step_reason _ step = none

  unfoldable pub first_reason : List RemediationStep → Option String
  first_reason [] = none
  first_reason (step ∷ steps) =
      let later = first_reason steps in
      elim (step_reason step.action step) [ none ↦ later | some reason ↦ some reason ]

  unfoldable pub denylist_reason : Playbook → Option String
  denylist_reason playbook = first_reason (playbook.steps ++ playbook.rollback_steps)
