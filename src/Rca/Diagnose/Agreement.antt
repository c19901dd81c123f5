-- ===== src/Rca/Diagnose/Agreement.antt =====
-- A diagnosis names one runbook: the one that its top hypothesis names.
use intelliops.Base.{
  String, Option, none, some, List, [], ◌∷◌, ◌≡◌, refl, arith, Floats, inl, inr, Option-cases, sym,
  ap, ◌∙◌,
}
use intelliops.Contracts.{
  Situation, SituationStatus, RootCauseHypothesis, DiagnosedSituation, Playbook,
}
use intelliops.Action.Effects.{ok, Result-cases}
use intelliops.Rca.Rank.{
  EnrichmentContext, Choice, by_rule, semantic, no_choice, rank_hypotheses, select_runbook,
  surface_runbook, fetch_selected, Find,
}
use intelliops.Rca.Diagnose.{
  and_then-ok, Diagnostics, Explainer, and_then, enrich, with_choice, with_advice, diagnosed_as,
  concluded, diagnose, runbook_of,
}

module _ (fl : Floats) where
  open fl use {F}

  -- What a choice has to do with the ranking that it was made on.
  abbrev Fits : Choice fl → List (RootCauseHypothesis F) → Type 0
  Fits c [] = c ≡ no_choice
  Fits (by_rule p) (h ∷ hs) = h.suggested_runbook_id ≡ some p.id
  Fits (semantic p f) (h ∷ hs) = Unit
  Fits no_choice (h ∷ hs) = Unit

  -- The store answers under an id with the playbook of that id.
  abbrev pub Keyed : Find → Type 0
  Keyed find = (id : String) (p : Playbook) → find id ≡ ok (some p) → p.id ≡ id

  abbrev pub Agrees : Situation F → DiagnosedSituation F → Type 0
  Agrees s x =
      (h : RootCauseHypothesis F) × (hs : List (RootCauseHypothesis F)) × (x.hypotheses ≡ h ∷ hs)
      × (x.suggested_runbook_id ≡ h.suggested_runbook_id)
      × (x.situation ≡ record s { status = SituationStatus.diagnosed })

  by_rule-Fits :
      (h : RootCauseHypothesis F) (hs : List (RootCauseHypothesis F)) (find : Find) (p : Playbook)
      → Keyed find
      → surface_runbook fl (h ∷ hs) find ≡ ok (some p)
      → h.suggested_runbook_id ≡ some p.id
  unfolding surface_runbook
  by_rule-Fits h hs find p keyed found = elim (Option-cases h.suggested_runbook_id) [
    | inl e ↦ absurd (ground arith)
    | inr (id, e) ↦ e ∙ ap some (sym (keyed id p (ground arith)))
  ]

  -- The advice leaves the runbook of the top hypothesis alone.
  with_advice-runbook :
      (explainer : Explainer F) (context : EnrichmentContext) (s : Situation F)
      (h : RootCauseHypothesis F) (hs out : List (RootCauseHypothesis F))
      → with_advice fl explainer context s (h ∷ hs) ≡ ok out
      → (h' : RootCauseHypothesis F) × (out ≡ h' ∷ hs)
        × (h'.suggested_runbook_id ≡ h.suggested_runbook_id)
  unfolding with_advice
  with_advice-runbook explainer context s h hs out e = elim (Result-cases (explainer h context s)) [
    | inl lost ↦ absurd (ground arith)
    | inr (pair, got) ↦ (
      record h { explanation = some pair.0; explanation_source = some pair.1 },
      ground arith,
      refl,
    )
  ]

  diagnosed_as-Agrees :
      (s : Situation F) (found : Option Playbook) (h : RootCauseHypothesis F)
      (hs out : List (RootCauseHypothesis F)) (x : DiagnosedSituation F)
      → ((p : Playbook) → found ≡ some p → h.suggested_runbook_id ≡ some p.id)
      → out ≡ h ∷ hs
      → diagnosed_as fl s found out ≡ ok x
      → Agrees s x
  unfolding diagnosed_as
  diagnosed_as-Agrees s none h hs [] x fits same e = absurd (ground arith)
  diagnosed_as-Agrees s none h hs (k ∷ ks) x fits same e =
      (k, ks, ground arith, ground arith, ground arith)
  diagnosed_as-Agrees s (some p) h hs out x fits same e =
      (h, hs, ground arith, ground (arith, fits p refl), ground arith)

  module _ (d : Diagnostics F) (explainer : Explainer F) (s : Situation F)
      (context : EnrichmentContext) where
    select-Fits :
        (hs : List (RootCauseHypothesis F)) (c : Choice fl)
        → Keyed d.find
        → select_runbook fl hs s d.find d.find_again d.selector ≡ ok c
        → Fits c hs
    unfolding select_runbook surface_runbook fetch_selected
    select-Fits [] c keyed e = ground arith
    select-Fits (h ∷ hs) (by_rule p) keyed e =
        let found : surface_runbook fl (h ∷ hs) d.find ≡ ok (some p) = ground arith in
        by_rule-Fits h hs d.find p keyed found
    select-Fits (h ∷ hs) (semantic p f) keyed e = tt
    select-Fits (h ∷ hs) no_choice keyed e = tt

    -- What follows the choice, on a ranking whose top fits it.
    advised-Agrees :
        (h : RootCauseHypothesis F) (hs : List (RootCauseHypothesis F)) (found : Option Playbook)
        (x : DiagnosedSituation F)
        → ((p : Playbook) → found ≡ some p → h.suggested_runbook_id ≡ some p.id)
        → and_then (with_advice fl explainer context s (h ∷ hs)) (diagnosed_as fl s found) ≡ ok x
        → Agrees s x
    advised-Agrees h hs found x fits e =
        let (out, advised, e') =
          and_then-ok (with_advice fl explainer context s (h ∷ hs)) (diagnosed_as fl s found) e in
        let (h', same, runbook) = with_advice-runbook explainer context s h hs out advised in
        diagnosed_as-Agrees s found h' hs out x (λ p is. runbook ∙ fits p is) same e'

    chosen-Agrees :
        (hs : List (RootCauseHypothesis F)) (c : Choice fl) (x : DiagnosedSituation F)
        → Fits c hs
        → and_then
            (with_advice fl explainer context s (with_choice fl d.show_score c hs))
            (diagnosed_as fl s (runbook_of c))
          ≡ ok x
        → Agrees s x
    unfolding with_choice
    chosen-Agrees [] (by_rule p) x fits e = absurd (ground arith)
    chosen-Agrees [] (semantic p f) x fits e = absurd (ground arith)
    chosen-Agrees [] no_choice x fits e = unfold with_advice diagnosed_as in absurd (ground arith)
    chosen-Agrees (h ∷ hs) (by_rule p) x fits e =
        advised-Agrees h hs (some p) x (λ q is. ground arith) e
    chosen-Agrees (h ∷ hs) (semantic p f) x fits e =
        advised-Agrees _ hs (some p) x (λ q is. ground arith) e
    chosen-Agrees (h ∷ hs) no_choice x fits e =
        advised-Agrees h hs none x (λ q is. absurd (ground arith)) e

  -- If the store keeps every playbook under its own id, a diagnosis that is made marks the situation
  -- as diagnosed and changes nothing else of it, has a hypothesis, and suggests the very runbook that
  -- its top hypothesis names, whether a rule named it or the selector chose it.
  pub diagnose-Agrees :
      (d : Diagnostics F) (explainer : Explainer F) (s : Situation F) (x : DiagnosedSituation F)
      → Keyed d.find
      → diagnose fl d explainer s ≡ ok x
      → Agrees s x
  unfolding diagnose concluded
  diagnose-Agrees d explainer s x keyed e =
      let (context, e1, e2) = and_then-ok (enrich s d.context) _ e in
      let hs =
        rank_hypotheses fl d.lower d.reliability (some (d.scoring_find, d.selector)) s context in
      let (c, chosen, e3) =
        and_then-ok (select_runbook fl hs s d.find d.find_again d.selector) _ e2 in
      chosen-Agrees d explainer s context hs c x
        (select-Fits d explainer s context hs c keyed chosen) e3
