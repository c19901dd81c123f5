-- ===== src/Read/Projection/Bounds.antt =====
-- What holds of the read model after any events.
use intelliops.Base.{
  ◌≤◌, String, ◌==◌, ==_iff, some, List, [], ◌∷◌, length, All, length-take-le, Floats, ◌≡◌, refl,
  arith, if_rule, Option-cases, inl, inr,
}
use intelliops.Base.Dict.{Dict, lookup, insert}
use intelliops.Contracts.{Situation, DiagnosedSituation, RemediationOutcome}
use intelliops.Read.Card.{Card, ReadModel}
use intelliops.Read.Projection.{
  Event, detection, diagnosis, outcome, suppression, apply, replay, apply_detected, apply_diagnosed,
  apply_outcome, apply_suppressed, folded, explained, finished, put,
}

module _ (fl : Floats) where
  -- Every card is held under its own id, and the history is within its bound.
  abbrev pub OwnId : Dict (Card fl.F) → Type 0
  OwnId = All (λ e. e.1.id ≡ e.0)

  abbrev pub IsValid : ReadModel fl.F → Type 0
  IsValid m = OwnId m.sits × (length m.outcomes ≤ m.max_outcomes)

  insert-OwnId :
      (k : String) (c : Card fl.F) (d : Dict (Card fl.F))
      → c.id ≡ k
      → OwnId d
      → OwnId (insert k c d)
  unfolding insert
  insert-OwnId k c [] e h = (e, tt)
  insert-OwnId k c ((j, x) ∷ d) e h =
      if_rule OwnId (j == k) _ _ (λ _. (e, h.1)) (λ _. (h.0, insert-OwnId k c d e h.1))

  lookup-OwnId :
      (k : String) (c : Card fl.F) (d : Dict (Card fl.F)) → OwnId d → lookup k d ≡ some c → c.id ≡ k
  unfolding lookup
  lookup-OwnId k c [] h e = absurd (ground arith)
  lookup-OwnId k c ((j, x) ∷ d) h e = ground (arith, ==_iff j k, lookup-OwnId k c d h.1)

  put-IsValid : (c : Card fl.F) (m : ReadModel fl.F) → IsValid m → IsValid (put fl c m)
  put-IsValid c m h = (insert-OwnId c.id c m.sits refl h.0, h.1)

  detected-IsValid :
      (s : Situation fl.F) (m : ReadModel fl.F) → IsValid m → IsValid (apply_detected fl s m).1
  unfolding apply_detected
  detected-IsValid s m h = elim (Option-cases (folded fl s (lookup s.id m.sits))) [
    | inl e ↦ rw (e, apply_detected) h
    | inr (c, e) ↦ rw (e, apply_detected) (put-IsValid c m h)
  ]

  diagnosed-IsValid :
      (d : DiagnosedSituation fl.F) (m : ReadModel fl.F)
      → IsValid m
      → IsValid (apply_diagnosed fl d m).1
  unfolding apply_diagnosed
  diagnosed-IsValid d m h =
      elim (Option-cases (folded fl d.situation (lookup d.situation.id m.sits))) [
        | inl e ↦ rw (e, apply_diagnosed) h
        | inr (c, e) ↦ rw (e, apply_diagnosed) (put-IsValid (explained fl d c) m h)
      ]

  outcome-IsValid :
      (o : RemediationOutcome) (m : ReadModel fl.F) → IsValid m → IsValid (apply_outcome fl o m)
  unfolding apply_outcome finished
  outcome-IsValid o m h = elim (Option-cases (lookup o.situation_id m.sits)) [
    | inl e ↦ rw (e, apply_outcome) (h.0, length-take-le m.max_outcomes _)
    | inr (c, e) ↦
        rw (e, apply_outcome)
          (
            insert-OwnId o.situation_id (finished fl o c) m.sits
                (lookup-OwnId o.situation_id c m.sits h.0 e) h.0,
            length-take-le m.max_outcomes _,
          )
  ]

  apply-IsValid : (e : Event fl.F) (m : ReadModel fl.F) → IsValid m → IsValid (apply fl e m)
  unfolding apply apply_suppressed
  apply-IsValid (detection s) m h = detected-IsValid s m h
  apply-IsValid (diagnosis d) m h = diagnosed-IsValid d m h
  apply-IsValid (outcome o) m h = outcome-IsValid o m h
  apply-IsValid (suppression s) m h = h

  -- Whatever events arrive in whatever order, every card stays under its own situation's id (by
  -- which the eviction removes it) and the outcome history stays within its bound.
  pub replay-IsValid :
      (es : List (Event fl.F)) (m : ReadModel fl.F) → IsValid m → IsValid (replay fl es m)
  unfolding replay
  replay-IsValid [] m h = h
  replay-IsValid (e ∷ es) m h = replay-IsValid es (apply fl e m) (apply-IsValid e m h)
