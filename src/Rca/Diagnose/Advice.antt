-- ===== src/Rca/Diagnose/Advice.antt =====
-- The explanation is advice only: it decides nothing.
use intelliops.Base.{
  String, Option, none, some, List, [], ◌∷◌, map, ◌≡◌, sym, ap, ◌∙◌, inl, inr, arith, Floats,
}
use intelliops.Contracts.{
  Situation, SituationStatus, RootCauseHypothesis, DiagnosedSituation, Playbook,
}
use intelliops.Action.Effects.{Result, ok, raised, Result-cases}
use intelliops.Rca.Rank.{rank_hypotheses, select_runbook, Choice, EnrichmentContext}
use intelliops.Rca.Diagnose.{
  enrich, with_choice, runbook_of, and_then-ok, Diagnostics, Explainer, and_then, with_advice,
  diagnosed_as, concluded, diagnose,
}

-- Two runs that share their first part.
and_then-both :
    {A B : Type 0} (r : Result A) (f g : A → Result B) {x y : B}
    → and_then r f ≡ ok x
    → and_then r g ≡ ok y
    → (a : A) × (f a ≡ ok x) × (g a ≡ ok y)
and_then-both (ok a) f g h k = (a, h, k)
and_then-both raised f g h k = absurd (ground arith)

module _ {F : Type 0} where
  -- A hypothesis without its explanation.
  abbrev pub plain : RootCauseHypothesis F → RootCauseHypothesis F
  plain h = record h { explanation = none; explanation_source = none }

  abbrev suggested : Option Playbook → List (RootCauseHypothesis F) → Option String
  suggested (some p) hs = some p.id
  suggested none [] = none
  suggested none (h ∷ hs) = h.suggested_runbook_id

module _ (fl : Floats) (s : Situation fl.F) where
  open fl use {F}

  with_advice-plain :
      (explainer : Explainer F) (context : EnrichmentContext)
      (hs out : List (RootCauseHypothesis F))
      → with_advice fl explainer context s hs ≡ ok out
      → map plain out ≡ map plain hs
  unfolding with_advice
  with_advice-plain explainer context [] out e = ground arith
  with_advice-plain explainer context (h ∷ hs) out e = elim (Result-cases (explainer h context s)) [
    | inl lost ↦ absurd (ground arith)
    | inr (pair, got) ↦
        let is : (record h { explanation = some pair.0; explanation_source = some pair.1 } ∷ hs)
            ≡ out =
          ground arith in
        ap (map plain) (sym is)
  ]

  diagnosed_as-plain :
      (found : Option Playbook) (out : List (RootCauseHypothesis F)) (x : DiagnosedSituation F)
      → diagnosed_as fl s found out ≡ ok x
      → (x.hypotheses ≡ out)
        × (x.situation ≡ record s { status = SituationStatus.diagnosed })
        × (x.suggested_runbook_id ≡ suggested found (map plain out))
  unfolding diagnosed_as
  diagnosed_as-plain none [] x e = absurd (ground arith)
  diagnosed_as-plain none (h ∷ hs) x e = (ground arith, ground arith, ground arith)
  diagnosed_as-plain (some p) out x e = (ground arith, ground arith, ground arith)

  abbrev pub SameButAdvice : DiagnosedSituation F → DiagnosedSituation F → Type 0
  SameButAdvice x y =
      (x.situation ≡ y.situation)
      × (x.suggested_runbook_id ≡ y.suggested_runbook_id)
      × (map plain x.hypotheses ≡ map plain y.hypotheses)

  advised-same :
      (context : EnrichmentContext) (e1 e2 : Explainer F) (found : Option Playbook)
      (hs : List (RootCauseHypothesis F)) (x y : DiagnosedSituation F)
      → and_then (with_advice fl e1 context s hs) (diagnosed_as fl s found) ≡ ok x
      → and_then (with_advice fl e2 context s hs) (diagnosed_as fl s found) ≡ ok y
      → SameButAdvice x y
  advised-same context e1 e2 found hs x y h k =
      let (out, a, h') = and_then-ok (with_advice fl e1 context s hs) (diagnosed_as fl s found) h in
      let (out', b, k') =
        and_then-ok (with_advice fl e2 context s hs) (diagnosed_as fl s found) k in
      let (xh, xs, xr) = diagnosed_as-plain found out x h' in
      let (yh, ys, yr) = diagnosed_as-plain found out' y k' in
      let same : map plain out ≡ map plain out' =
        with_advice-plain e1 context hs out a ∙ sym (with_advice-plain e2 context hs out' b) in
      (
        xs ∙ sym ys,
        xr ∙ ap (suggested found) same ∙ sym yr,
        ap (map plain) xh ∙ same ∙ sym (ap (map plain) yh),
      )

  concluded-same :
      (d : Diagnostics F) (e1 e2 : Explainer F) (context : EnrichmentContext)
      (hs : List (RootCauseHypothesis F)) (x y : DiagnosedSituation F)
      → concluded fl d e1 s context hs ≡ ok x
      → concluded fl d e2 s context hs ≡ ok y
      → SameButAdvice x y
  unfolding concluded
  concluded-same d e1 e2 context hs x y h k =
      let after : Explainer F → Choice fl → Result (DiagnosedSituation F) = λ e c.
        and_then (with_advice fl e context s (with_choice fl d.show_score c hs))
          (diagnosed_as fl s (runbook_of c)) in
      let (c, h', k') =
        and_then-both (select_runbook fl hs s d.find d.find_again d.selector) (after e1) (after e2)
          h k in
      advised-same context e1 e2 (runbook_of c) (with_choice fl d.show_score c hs) x y h' k'

-- Whichever explainer is installed, and whatever it says, a diagnosis that is made differs in the
-- explanations alone: the situation, the hypotheses with their confidence, evidence and order, and the
-- runbook that is suggested are the same.
pub diagnose-SameButAdvice :
    (fl : Floats) (d : Diagnostics fl.F) (e1 e2 : Explainer fl.F) (s : Situation fl.F)
    (x y : DiagnosedSituation fl.F)
    → diagnose fl d e1 s ≡ ok x
    → diagnose fl d e2 s ≡ ok y
    → SameButAdvice fl s x y
unfolding diagnose
diagnose-SameButAdvice fl d e1 e2 s x y h k =
    let ranked : EnrichmentContext → List (RootCauseHypothesis fl.F) =
      rank_hypotheses fl d.lower d.reliability (some (d.scoring_find, d.selector)) s in
    let (context, h', k') =
      and_then-both (enrich s d.context) (λ c. concluded fl d e1 s c (ranked c))
        (λ c. concluded fl d e2 s c (ranked c)) h k in
    concluded-same fl s d e1 e2 context (ranked context) x y h' k'
