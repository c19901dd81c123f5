-- ===== src/Tests/Rca.antt =====
-- The diagnosis of one situation: a latency incident, shortly after a deploy of its service.
use intelliops.Base.{
  ◌≡◌, if◌then◌else◌, ◌∷◌, ◌==◌, ◌<◌, ◌⊎◌, ℕ, String, refl, true, false, Option, none, some, List,
  [], arith, length, count, All, ==_iff, contains, joined, Asymmetric,
}
use intelliops.Contracts.{
  TrainingRecord, success, failure, Situation, DiagnosedSituation, Playbook, HitlMode,
}
use intelliops.Action.Effects.{ok, raised}
use intelliops.Base.{after_prefix}
use intelliops.Base.Dict.{insert, lookup}
use intelliops.Rca.Rank.{
  select_runbook, surface_runbook, sorted_descending, deploy_rule, deploy_found, first_deploy,
  rules, insert_descending, fetch_selected, fit, service_labels, EnrichmentContext, Find,
  rank_hypotheses, ranks_below, rescored, proposals, fired, fallback,
}
use intelliops.Rca.Rank.Proposals.{IsProposal, rank_hypotheses-IsProposal}
use intelliops.Rca.Selector.{null_selector}
use intelliops.Rca.Diagnose.{
  enrich, concluded, diagnosed_as, merged_labels, update, with_advice, with_choice, Diagnostics,
  Explainer, diagnose,
}
use intelliops.Rca.Diagnose.Agreement.{Agrees, diagnose-Agrees}
use intelliops.Rca.Diagnose.Advice.{SameButAdvice, diagnose-SameButAdvice}
use intelliops.Rca.Reliability.{Provider, reliability_of, key_of}
use intelliops.Rca.Reliability.Ratio.{rated, counts, worked_under, reliability_of-rated}
use intelliops.Tests.{floats}
use intelliops.Tests.Data.{sit, playbook, run_of}

pub floats-asymmetric : Asymmetric floats
floats-asymmetric a b h = ground arith

abbrev lower : String → String
lower s = s

abbrev context : EnrichmentContext
context = record {
  recent_deploys = (("service", "checkout") ∷ ("version", "1.2") ∷ []) ∷ [];
  topology = "{}";
  config_changes = [];
}

abbrev provider : Option (String → String → ℕ)
provider = some (λ signature runbook. if runbook == "scale-service" then 1000 else 0)

rank_hypotheses-IsProposal_example :
    let ranking = rank_hypotheses floats lower provider none sit context in
    ((fired floats lower sit context ≡ []) × (ranking ≡ fallback floats sit ∷ []))
    ⊎ ((0 < length ranking)
        × (length ranking ≡ length (fired floats lower sit context))
        × All (IsProposal floats sit) ranking)
rank_hypotheses-IsProposal_example =
    rank_hypotheses-IsProposal floats lower provider none sit context

-- A store that has one playbook, for scaling.
abbrev scale_service : Playbook
scale_service = record (playbook HitlMode.hitl) { id = "scale-service" }

abbrev find : Find
find id = if "scale-service" == id then ok (some scale_service) else ok none

find-keyed : (id : String) (p : Playbook) → find id ≡ ok (some p) → p.id ≡ id
find-keyed id p h = ground (arith, ==_iff "scale-service" id)

abbrev quiet_situation : Situation ℕ
quiet_situation = sit

abbrev diagnostics : Diagnostics ℕ
diagnostics = record {
  context = record {
    recent_deploys = ok [];
    topology_for = λ labels. ok "{}";
    config_changes = ok [];
  };
  scoring_find = find;
  find = find;
  find_again = find;
  selector = null_selector;
  reliability = none;
  lower = lower;
  show_score = λ f. "0.50";
}

abbrev explainer : String → Explainer ℕ
explainer advice h c s = ok (advice, "template")

abbrev unmade : DiagnosedSituation ℕ
unmade = record { situation = sit; hypotheses = []; suggested_runbook_id = none }

abbrev diagnosis : String → DiagnosedSituation ℕ
diagnosis advice = elim (diagnose floats diagnostics (explainer advice) sit) [
  | ok x ↦ x
  | raised ↦ unmade
]

diagnosis_is_made :
    (advice : String) → diagnose floats diagnostics (explainer advice) sit ≡ ok (diagnosis advice)
unfolding diagnose enrich concluded select_runbook surface_runbook rank_hypotheses sorted_descending
    proposals fired deploy_rule deploy_found first_deploy rules contains joined after_prefix
    insert_descending rescored insert lookup diagnosed_as merged_labels update with_advice
    with_choice fallback fetch_selected fit ranks_below service_labels null_selector
diagnosis_is_made advice = refl

diagnose-Agrees_example : Agrees floats sit (diagnosis "it is slow")
diagnose-Agrees_example =
    diagnose-Agrees floats diagnostics (explainer "it is slow") sit (diagnosis "it is slow")
      find-keyed (diagnosis_is_made "it is slow")

diagnose-SameButAdvice_example :
    SameButAdvice floats sit (diagnosis "it is slow") (diagnosis "add a replica")
diagnose-SameButAdvice_example =
    diagnose-SameButAdvice floats diagnostics (explainer "it is slow") (explainer "add a replica")
      sit (diagnosis "it is slow") (diagnosis "add a replica") (diagnosis_is_made "it is slow")
      (diagnosis_is_made "add a replica")

abbrev unread : Provider floats
unread = record { loaded_at = none; table = [] }

abbrev runs : List TrainingRecord
runs = run_of success true ∷ run_of failure false ∷ []

reliability_of-rated_example :
    let (answer, p') = reliability_of floats 60 100 (ok runs) "abc" (some "pb-1") unread in
    (answer
      ≡ rated floats
          (count (worked_under (key_of floats "abc" (some "pb-1"))) runs)
          (count (counts (key_of floats "abc" (some "pb-1"))) runs))
    × ((reliability_of floats 60 150 raised "abc" (some "pb-1") p').0 ≡ answer)
reliability_of-rated_example =
    reliability_of-rated floats 60 100 150 runs raised "abc" (some "pb-1") unread refl (omega arith)
