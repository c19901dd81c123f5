-- ===== src/Action/Consumer/Waiver.antt =====
-- When a quiet situation is run without a human.
use intelliops.Base.{
  pos, ◌&&◌, ◌≤◌, true, ==_iff, some, List, ◌≡◌, Floats, arith, count, Option-cases, inl, inr,
}
use intelliops.Contracts.{Situation, DiagnosedSituation, Playbook, hitl, TrainingRecord}
use intelliops.Idempotency.{Guard}
use intelliops.Evidence.{at_least_one}
use intelliops.Evidence.Counting.{counts, quiet_eligible-real}
use intelliops.Action.Effects.{Env, World, ok, Result-cases}
use intelliops.Action.Consumer.{Stores, Config, waiver, quiet_decision, quiet_verdict, Times}

module _ (fl : Floats) (env : Env fl.F) (g : Guard) (stores : Stores) (config : Config fl.F) where
  -- The evidence that waives the approval of a playbook for a situation.
  abbrev pub Evidence : Situation fl.F → Playbook → Type 0
  Evidence situation playbook =
      let real = counts situation.signature (some playbook.id) in
      (records : List TrainingRecord) × (stores.read_training ≡ some (ok records))
      × (config.quiet_skip_approval ≡ true)
      × (at_least_one config.quiet_min_samples ≤ count real records)
      × (fl.le config.quiet_threshold (
            fl.div (fl.lit (pos (count (λ r. real r && r.worked) records)) 0)
              (fl.lit (pos (count real records)) 0))
          ≡ true)

  quiet_verdict-Evidence :
      (situation : Situation fl.F) (playbook : Playbook)
      → (quiet_verdict fl env g stores config situation playbook).0 ≡ true
      → Evidence situation playbook
  unfolding quiet_verdict
  quiet_verdict-Evidence situation playbook h = elim (Option-cases stores.read_training) [
    | inl e ↦ absurd (ground arith)
    | inr (answer, e) ↦ elim (Result-cases answer) [
      | inl e' ↦ absurd (ground arith)
      | inr (records, e') ↦
          let (enough, share) =
            (quiet_eligible-real fl records situation.signature playbook.id config.quiet_threshold
                config.quiet_min_samples).0
              (ground arith) in
          (records, ground arith, ground arith, enough, share)
    ]
  ]

  -- The human approval is waived only for a situation that asks for quiet handling and a playbook
  -- that asks a human, where the setting allows it, the training records could be read, and they
  -- hold enough real runs of this very playbook on this very signature (the configured number, and
  -- at least one), of which the share that worked is not below the threshold. A run is real if its
  -- mode is known and is neither "dry_run" nor "none".
  pub waiver-Evidence :
      (diagnosed : DiagnosedSituation fl.F) (t : Times) (playbook : Playbook) (w : World fl.F)
      → (waiver fl env g stores config diagnosed t playbook w).0 ≡ ok true
      → (diagnosed.situation.handling ≡ "quiet")
        × (playbook.hitl_mode ≡ hitl)
        × Evidence diagnosed.situation playbook
  unfolding waiver quiet_decision
  waiver-Evidence diagnosed t playbook w h =
      let s = diagnosed.situation in
      (
        ground (arith, ==_iff s.handling "quiet"),
        ground arith,
        quiet_verdict-Evidence s playbook (ground arith),
      )
