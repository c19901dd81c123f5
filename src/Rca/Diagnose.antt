-- ===== src/Rca/Diagnose.antt =====
-- services/rca/consumer.py and enrich.py: what is made of one detected situation. The providers of
-- context, the explainer, the bus and the audit sink are parameters whose calls may raise.
pub mod Advice
pub mod Agreement
use intelliops.Base.{
  ◌≡◌, refl, arith, String, ◌<>◌, Option, none, some, List, [], ◌∷◌, ◌++◌, ℕ, Floats,
}
use intelliops.Base.Dict.{Dict, insert}
use intelliops.Contracts.{
  TelemetryEvent, Situation, SituationStatus, RootCauseHypothesis, DiagnosedSituation, Playbook,
  AuditRecord,
}
use intelliops.Action.Effects.{Result, ok, raised}
use intelliops.Rca.Rank.{
  EnrichmentContext, Find, Selector, Choice, by_rule, semantic, no_choice, rank_hypotheses,
  select_runbook,
}

pub record ContextProvider : Type 0 where
  pub recent_deploys : Result (List (Dict String))
  pub topology_for : Dict String → Result String
  pub config_changes : Result (List String)

abbrev pub and_then : {A B : Type 0} → Result A → (A → Result B) → Result B
and_then r f = elim r [ ok a ↦ f a | raised ↦ raised ]

-- Inversion of `and_then`.
pub and_then-ok :
    {A B : Type 0} (r : Result A) (f : A → Result B) {b : B}
    → and_then r f ≡ ok b
    → (a : A) × (r ≡ ok a) × (f a ≡ ok b)
and_then-ok (ok a) f h = (a, refl, h)
and_then-ok raised f h = absurd (ground arith)

-- `labels.update(more)`
unfoldable pub update : Dict String → Dict String → Dict String
update labels [] = labels
update labels ((k, v) ∷ more) = update (insert k v labels) more

-- `_merged_labels`, onto the labels so far
unfoldable pub merged_labels : {F : Type 0} → Dict String → List (TelemetryEvent F) → Dict String
merged_labels labels [] = labels
merged_labels labels (e ∷ es) = merged_labels (update labels e.labels) es

unfoldable pub enrich : {F : Type 0} → Situation F → ContextProvider → Result EnrichmentContext
enrich s provider = and_then provider.recent_deploys (λ deploys.
    and_then (provider.topology_for (merged_labels [] s.member_events)) (λ topology.
      and_then provider.config_changes (λ changes.
        ok (record { recent_deploys = deploys; topology = topology; config_changes = changes }))))

-- `explain_with_source`
abbrev pub Explainer : Type 0 → Type 0
Explainer F = RootCauseHypothesis F → EnrichmentContext → Situation F → Result (String × String)

-- What a diagnosis asks. The store is called in the scoring and twice in the choice of a runbook, and
-- may answer differently; `show_score` prints a score with two decimals.
pub record Diagnostics (F : Type 0) : Type 0 where
  pub context : ContextProvider
  pub scoring_find : Find
  pub find : Find
  pub find_again : Find
  pub selector : Selector F
  pub reliability : Option (String → String → F)
  pub lower : String → String
  pub show_score : F → String

abbrev pub runbook_of : {fl : Floats} → Choice fl → Option Playbook
runbook_of (by_rule p) = some p
runbook_of (semantic p f) = some p
runbook_of no_choice = none

module _ (fl : Floats) where
  open fl use {F}

  -- The top hypothesis names the runbook that the selector chose.
  unfoldable pub with_choice :
      (F → String) → Choice fl → List (RootCauseHypothesis F) → List (RootCauseHypothesis F)
  with_choice show_score (semantic p f) (h ∷ hs) =
      record h {
        suggested_runbook_id = some p.id;
        evidence = h.evidence ++ ("semantic match: " <> p.id <> " (" <> show_score f <> ")") ∷ [];
      }
      ∷ hs
  with_choice show_score _ hs = hs

  -- The advice is set on the top hypothesis.
  unfoldable pub with_advice :
      Explainer F
      → EnrichmentContext
      → Situation F
      → List (RootCauseHypothesis F)
      → Result (List (RootCauseHypothesis F))
  with_advice explainer context s [] = ok []
  with_advice explainer context s (h ∷ hs) = elim (explainer h context s) [
    | raised ↦ raised
    | ok (advice, source) ↦
        ok (record h { explanation = some advice; explanation_source = some source } ∷ hs)
  ]

  -- The runbook that was chosen, or what the top hypothesis says.
  unfoldable pub diagnosed_as :
      Situation F → Option Playbook → List (RootCauseHypothesis F) → Result (DiagnosedSituation F)
  diagnosed_as s (some p) hs = ok (record {
    situation = record s { status = SituationStatus.diagnosed };
    hypotheses = hs;
    suggested_runbook_id = some p.id;
  })
  diagnosed_as s none [] = raised
  diagnosed_as s none (h ∷ hs) = ok (record {
    situation = record s { status = SituationStatus.diagnosed };
    hypotheses = h ∷ hs;
    suggested_runbook_id = h.suggested_runbook_id;
  })

  module _ (d : Diagnostics F) (explainer : Explainer F) where
    -- What follows the ranking.
    unfoldable pub concluded :
        Situation F
        → EnrichmentContext
        → List (RootCauseHypothesis F)
        → Result (DiagnosedSituation F)
    concluded s context hs =
        and_then (select_runbook fl hs s d.find d.find_again d.selector) (λ choice.
          and_then (with_advice explainer context s (with_choice d.show_score choice hs))
            (diagnosed_as s (runbook_of choice)))

    unfoldable pub diagnose : Situation F → Result (DiagnosedSituation F)
    diagnose s = and_then (enrich s d.context) (λ context.
        concluded s context
          (rank_hypotheses fl d.lower d.reliability (some (d.scoring_find, d.selector)) s context))

-- What the service has sent and written, the latest first.
pub record Sent (F : Type 0) : Type 0 where
  pub published : List (DiagnosedSituation F)
  pub audited : List AuditRecord

module _ (fl : Floats) (d : Diagnostics fl.F)
    (publish : DiagnosedSituation fl.F → Result (Unit {0}))
    (write_audit : AuditRecord → Result (Unit {0})) where
  open fl use {F}

  abbrev pub diagnose_row : String → ℕ → AuditRecord
  diagnose_row id ts = record {
    actor = "rca-service";
    action = "diagnose";
    resource = "situation:" <> id;
    decision = "allow";
    ts = ts;
    correlation_id = id;
  }

  unfoldable pub write : AuditRecord → Sent F → Result (Unit {0}) × Sent F
  write row n = elim (write_audit row) [
    | ok _ ↦ (ok tt, record n { audited = row ∷ n.audited })
    | raised ↦ (raised, n)
  ]

  unfoldable pub publish_then :
      DiagnosedSituation F
      → (Sent F → Result (Unit {0}) × Sent F)
      → Sent F
      → Result (Unit {0}) × Sent F
  publish_then x rest n = elim (publish x) [
    | ok _ ↦ rest (record n { published = x ∷ n.published })
    | raised ↦ (raised, n)
  ]

  -- The body of `run_consumer`'s loop, with the explainer that is installed now.
  unfoldable pub handle : Explainer F → ℕ → Situation F → Sent F → Result (Unit {0}) × Sent F
  handle explainer ts s n = elim (diagnose fl d explainer s) [
    | raised ↦ (raised, n)
    | ok x ↦ publish_then x (write (diagnose_row s.id ts)) n
  ]
