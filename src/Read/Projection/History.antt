-- ===== src/Read/Projection/History.antt =====
-- The card of an incident never goes back in time.
use intelliops.Base.{
  ◌≤◌, String, ==_iff, none, some, Floats, ◌≡◌, ◌≢◌, refl, ==_refl, sym, ◌∙◌, ltb, Bool-cases, inl,
  inr, ◌⊎◌, arith,
}
use intelliops.Base.Dict.{lookup, lookup-insert}
use intelliops.Contracts.{Situation, DiagnosedSituation}
use intelliops.Read.Card.{Card, ReadModel, epoch_ms}
use intelliops.Read.Projection.{apply_detected, apply_diagnosed, folded, renewed, explained, put}

module _ (fl : Floats) where
  -- The card that is held for an incident goes on with this status and this outcome.
  abbrev pub Keeps : String → Card fl.F → ReadModel fl.F → Type 0
  Keeps id c m =
      (c' : Card fl.F) × (lookup id m.sits ≡ some c')
      × (c'.status ≡ c.status)
      × (c'.outcome ≡ c.outcome)
      × (c'.first_seen ≡ c.first_seen)

  -- What a held card is folded into: nothing, or a card that goes on.
  folded_held :
      (s : Situation fl.F) (c : Card fl.F)
      → c.status ≢ "detected"
      → epoch_ms s.first_seen ≤ c.first_seen
      → (folded fl s (some c) ≡ none)
        ⊎ ((folded fl s (some c) ≡ some (renewed fl s c))
            × ((renewed fl s c).status ≡ c.status)
            × ((renewed fl s c).first_seen ≡ c.first_seen))
  unfolding folded renewed
  folded_held s c moved old = elim (Bool-cases (ltb (epoch_ms s.first_seen) c.first_seen)) [
    | inl e ↦ inl (ground arith)
    | inr e ↦ inr (ground arith, ground (arith, ==_iff c.status "detected"), ground arith)
  ]

  outcome_renewed : (s : Situation fl.F) (c : Card fl.F) → (renewed fl s c).outcome ≡ c.outcome
  unfolding renewed
  outcome_renewed s c = refl

  explained_status :
      (d : DiagnosedSituation fl.F) (c : Card fl.F)
      → c.status ≢ "detected"
      → (explained fl d c).status ≡ c.status
  unfolding explained
  explained_status d c moved = ground (arith, ==_iff c.status "detected")

  lookup-put : (x : Card fl.F) (m : ReadModel fl.F) → lookup x.id (put fl x m).sits ≡ some x
  lookup-put x m = ground (arith, lookup-insert x.id x.id x m.sits, ==_refl x.id)

  -- A detection or a diagnosis of the occurrence that is held, or of an earlier one, does not
  -- reopen the incident: a card whose status went beyond "detected" keeps its status, its outcome
  -- and its beginning, in whichever order the events arrive.
  pub apply-Keeps :
      (d : DiagnosedSituation fl.F) (m : ReadModel fl.F) (c : Card fl.F)
      → lookup d.situation.id m.sits ≡ some c
      → c.status ≢ "detected"
      → epoch_ms d.situation.first_seen ≤ c.first_seen
      → Keeps d.situation.id c (apply_detected fl d.situation m).1
        × Keeps d.situation.id c (apply_diagnosed fl d m).1
  unfolding apply_detected apply_diagnosed renewed explained
  apply-Keeps d m c held moved old = elim (folded_held d.situation c moved old) [
    | inl stale ↦
        rw (held, stale, apply_detected, apply_diagnosed)
          ((c, held, refl, refl, refl), (c, held, refl, refl, refl))
    | inr (on, same, first) ↦
        let r = renewed fl d.situation c in
        let x = explained fl d r in
        rw (held, on, apply_detected, apply_diagnosed)
          (
            (r, lookup-put r m, same, outcome_renewed d.situation c, first),
            (
              x,
              lookup-put x m,
              explained_status d r (λ h. moved (sym same ∙ h)) ∙ same,
              outcome_renewed d.situation c,
              first,
            ),
          )
  ]
