-- ===== src/Rca/Selector.antt =====
-- services/rca/adapters/runbook_selector.py: the two selectors. The embedding of a text, which may
-- raise, and the operations of numpy on vectors are parameters.
use intelliops.Base.{
  ◌≢◌, All, subst, true, String, ◌<>◌, ◌==◌, joined, strip, pos, Option, none, some, List, [], ◌∷◌,
  map, ◌≡◌, refl, ◌⊎◌, inl, inr, arith, Floats, feq, if◌then◌else◌, if_rule,
}
use intelliops.Contracts.{Situation, TelemetryEvent, RootCauseHypothesis, Playbook}
use intelliops.Action.Effects.{Result, ok, raised}
use intelliops.Rca.Rank.{Selector}

unfoldable pub null_selector : {F : Type 0} → Selector F
null_selector = record { score = λ s h p. ok none; select = λ s h. ok none }

pub record Encoder (F V : Type 0) : Type 0 where
  pub encode : String → Result V
  pub norm : V → F
  pub dot : V → V → F

-- `getattr(p, "symptoms", None)`, where it has a text
abbrev pub symptoms_of : Playbook → Option String
symptoms_of p = elim (p.symptoms) [ none ↦ none | some t ↦ if t == "" then none else some t ]

module _ (fl : Floats) {V : Type 0} (enc : Encoder fl.F V) (s : Situation fl.F)
    (h : RootCauseHypothesis fl.F) where
  open fl use {F, lit, lt, le, mul, div}

  -- `_query_text`
  abbrev pub query_text : String
  query_text = strip (
      h.description
      <> ". signals: "
      <> joined " " (map (λ (e : TelemetryEvent F). e.name) s.member_events))

  abbrev cosine : V → V → Option F
  cosine q t =
      let denom = mul (enc.norm q) (enc.norm t) in
      if feq fl denom (lit (pos 0) 0) then none else some (div (enc.dot q t) denom)

  abbrev compared : Result V → Result V → Option F
  compared (ok q) (ok t) = cosine q t
  compared _ _ = none

  unfoldable pub score : Playbook → Option F
  score p = elim (symptoms_of p) [
    | none ↦ none
    | some t ↦ compared (enc.encode query_text) (enc.encode t)
  ]

  abbrev kept : Option String → Option F → String → List (String × F) → List (String × F)
  kept none f id rest = rest
  kept (some _) none id rest = rest
  kept (some _) (some f) id rest = (id, f) ∷ rest

  -- The playbooks with symptoms that have a score, each with it.
  unfoldable pub scored : List Playbook → List (String × F)
  scored [] = []
  scored (p ∷ ps) = kept (symptoms_of p) (score p) p.id (scored ps)

  -- `max(scored, key=lambda item: item[1])`, of a first item and the others
  unfoldable pub best_of : String × F → List (String × F) → String × F
  best_of b [] = b
  best_of b (c ∷ cs) = best_of (if lt b.1 c.1 then c else b) cs

  abbrev above : F → String × F → Option (String × F)
  above threshold best = if le threshold best.1 then some best else none

  abbrev best_above : F → List (String × F) → Option (String × F)
  best_above threshold [] = none
  best_above threshold (b ∷ cs) = above threshold (best_of b cs)

  -- `list` is the answer of the store.
  unfoldable pub select : (threshold : F) → (list : Result (List Playbook)) → Option (String × F)
  select threshold raised = none
  select threshold (ok ps) = best_above threshold (scored ps)

  -- Some playbook of the list has this id and this score, and symptoms.
  abbrev pub Offers : String × F → List Playbook → Type 0
  Offers (id, f) [] = ⊥
  Offers (id, f) (p ∷ ps) =
      ((p.id ≡ id) × (score p ≡ some f) × (symptoms_of p ≢ none)) ⊎ Offers (id, f) ps

  abbrev AllOffered : List Playbook → List (String × F) → Type 0
  AllOffered ps = All (λ c. Offers c ps)

  more-Offers :
      (p : Playbook) (ps : List Playbook) (cs : List (String × F))
      → AllOffered ps cs
      → AllOffered (p ∷ ps) cs
  more-Offers p ps [] o = tt
  more-Offers p ps (c ∷ cs) o = (inr o.0, more-Offers p ps cs o.1)

  kept_rule {ℓ} :
      (P : List (String × F) → Type ℓ) (t : Option String) (f : Option F) (id : String)
      (rest : List (String × F))
      → P rest
      → ((x : String) (y : F) → t ≡ some x → f ≡ some y → P ((id, y) ∷ rest))
      → P (kept t f id rest)
  kept_rule P none f id rest out have = out
  kept_rule P (some x) none id rest out have = out
  kept_rule P (some x) (some y) id rest out have = have x y refl refl

  scored-Offers : (ps : List Playbook) → AllOffered ps (scored ps)
  unfolding scored
  scored-Offers [] = tt
  scored-Offers (p ∷ ps) =
      let rest = more-Offers p ps (scored ps) (scored-Offers ps) in
      kept_rule (AllOffered (p ∷ ps)) (symptoms_of p) (score p) p.id (scored ps) rest
        (λ x y e e'. (inl (refl, e', λ is. ground arith), rest))

  best_of-Offers :
      (ps : List Playbook) (b : String × F) (cs : List (String × F))
      → Offers b ps
      → AllOffered ps cs
      → Offers (best_of b cs) ps
  unfolding best_of
  best_of-Offers ps b [] o os = o
  best_of-Offers ps b (c ∷ cs) o os =
      best_of-Offers ps (if lt b.1 c.1 then c else b) cs
        (if_rule (λ x. Offers x ps) (lt b.1 c.1) c b (λ _. os.0) (λ _. o)) os.1

  best_above-Offers :
      (ps : List Playbook) (threshold : F) (cs : List (String × F)) (hit : String × F)
      → AllOffered ps cs
      → best_above threshold cs ≡ some hit
      → Offers hit ps × (le threshold hit.1 ≡ true)
  best_above-Offers ps threshold [] hit os e = absurd (ground arith)
  best_above-Offers ps threshold (b ∷ cs) hit os e =
      let best = best_of b cs in
      let is : best ≡ hit = ground arith in
      (subst (λ c. Offers c ps) is (best_of-Offers ps b cs os.0 os.1), ground arith)

  -- What the selector chooses is a playbook that the store lists, with symptoms, whose score reaches
  -- the threshold; it never makes up an id.
  pub select-Offers :
      (threshold : F) (list : Result (List Playbook)) (hit : String × F)
      → select threshold list ≡ some hit
      → (ps : List Playbook) × (list ≡ ok ps) × Offers hit ps × (le threshold hit.1 ≡ true)
  unfolding select
  select-Offers threshold raised hit e = absurd (ground arith)
  select-Offers threshold (ok ps) hit e =
      let (offered, enough) = best_above-Offers ps threshold (scored ps) hit (scored-Offers ps) e in
      (ps, refl, offered, enough)

module _ (fl : Floats) {V : Type 0} (enc : Encoder fl.F V) (threshold : fl.F)
    (list : Result (List Playbook)) where
  -- Neither of its methods raises.
  unfoldable pub embedding_selector : Selector fl.F
  embedding_selector = record {
    score = λ s h p. ok (score fl enc s h p);
    select = λ s h. ok (select fl enc s h threshold list);
  }
