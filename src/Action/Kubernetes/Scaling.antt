-- ===== src/Action/Kubernetes/Scaling.antt =====
-- How the remediator scales: the counts that it sets are bounded, and a rollback puts back the count
-- that was there before, against an API that does what Kubernetes documents of its calls.
use intelliops.Base.{
  ℤ, pos, ◌≤ℤ◌, Bool, true, false, String, Option, none, some, List, [], ◌∷◌, ◌≡◌, ◌≢◌, refl, sym,
  ◌∙◌, ◌⊎◌, inl, inr, arith, ◌+ℤ◌,
}
use intelliops.Contracts.{RemediationStep, StepAction}
use intelliops.Action.Effects.{Result, ok, raised, Result-cases}
use intelliops.Action.Kubernetes.{
  Api, Body, with_template, Deployment, State, Run, and_then, call, dispatch_action, dispatch_all,
  scale_step, revision_step, patch, patch_replicas, caught, run, execute, record_once, clamp,
  or_else, namespace_of, patch_template, RemediationTarget,
}

abbrev pub is_scale : StepAction → Bool
is_scale StepAction.scale = true
is_scale _ = false

-- What the API documents of one deployment's count of replicas: a read tells it, a patch of the
-- scale sets it (one that raises may have set it), and no other call changes it.
pub record Documented {C T : Type 0} (api : Api C T) (deployment ns : String) (count : C → Option ℤ)
    : Type 0 where
  pub exc_type_same : (c : C) → count (api.exc_type c).1 ≡ count c
  pub client_same : (c : C) → count (api.client c).1 ≡ count c
  pub read_same : (c : C) → count (api.read_deployment deployment ns c).1 ≡ count c
  pub read_count :
      (c : C) (d : Deployment)
      → (api.read_deployment deployment ns c).0 ≡ ok d
      → d.replicas ≡ count c
  pub patch_same :
      (body : Body T) (c : C) → count (api.patch_deployment deployment ns body c).1 ≡ count c
  pub list_same :
      (selector : String) (c : C) → count (api.list_replica_sets ns selector c).1 ≡ count c
  pub scaled :
      (n : ℤ) (c : C) (u : Unit {0})
      → (api.patch_scale deployment ns n c).0 ≡ ok u
      → count (api.patch_scale deployment ns n c).1 ≡ some n
  pub scale_failed :
      (n : ℤ) (c : C)
      → (api.patch_scale deployment ns n c).0 ≡ raised
      → (count (api.patch_scale deployment ns n c).1 ≡ count c)
        ⊎ (count (api.patch_scale deployment ns n c).1 ≡ some n)

module _ {C T : Type 0} (ns_default : String) (api : Api C T) where
  abbrev S : Type 0
  S = State ns_default api

  abbrev Runs : Type 0 → Type 0
  Runs A = Run ns_default api A

  -- A run that returns, and one that raises, through `and_then`.
  pub and_then_rule {ℓ} :
      {A B : Type 0} (P : Result B × S → Type ℓ) (m : Runs A) (rest : A → Runs B) (s : S)
      → ((m s).0 ≡ raised → P (raised, (m s).1))
      → ((a : A) → (m s).0 ≡ ok a → P (rest a (m s).1))
      → P (and_then ns_default api m rest s)
  unfolding and_then
  and_then_rule {A} {B} P m rest s lost got = go (m s).0 refl
    where
      go :
          (r : Result A)
          → (m s).0 ≡ r
          → P (elim r [ ok a ↦ rest a (m s).1 | raised ↦ (raised, (m s).1) ])
      go (ok a) h = got a h
      go raised h = lost h

  -- The count and what is recorded stay.
  abbrev pub Quiet : (C → Option ℤ) → S → S → Type 0
  Quiet count s s' = (s'.pre_scale ≡ s.pre_scale) × (count s'.cluster ≡ count s.cluster)

  -- The count is what it was, or one that the remediator may set.
  abbrev pub Bounded : (C → Option ℤ) → Option ℤ → S → Type 0
  Bounded count old s =
      (count s.cluster ≡ old)
      ⊎ ((n : ℤ) × (count s.cluster ≡ some n) × (pos 1 ≤ℤ n) × (n ≤ℤ pos 10))

  module _ (ns deployment : String) (count : C → Option ℤ)
      (laws : Documented api deployment ns count) where
    Quiet-rest :
        {A B : Type 0} (m : Runs A) (rest : A → Runs B) (s : S)
        → Quiet count s (m s).1
        → ((a : A) (s' : S) → Quiet count s' (rest a s').1)
        → Quiet count s (and_then ns_default api m rest s).1
    Quiet-rest m rest s (a, b) next =
        and_then_rule (λ x. Quiet count s x.1) m rest s (λ _. (a, b))
          (λ r _. let (c, d) = next r (m s).1 in (c ∙ a, d ∙ b))

    pub patch-Quiet :
        (body : Body T) (s : S) → Quiet count s (patch ns_default api ns deployment body s).1
    unfolding call
    patch-Quiet body s = (refl, laws.patch_same body s.cluster)

    template-Quiet :
        (found : Option T) (s : S)
        → Quiet count s (patch_template ns_default api ns deployment found s).1
    template-Quiet none s = (refl, refl)
    template-Quiet (some template) s = patch-Quiet (with_template template) s

    revision-Quiet :
        (step : RemediationStep) (s : S)
        → Quiet count s (revision_step ns_default api ns deployment step s).1
    unfolding revision_step call
    revision-Quiet step s =
        Quiet-rest _ _ s (refl, laws.read_same s.cluster)
          (λ d s'.
            Quiet-rest _ _ s' (refl, laws.list_same _ s'.cluster)
              (λ sets s''. template-Quiet _ s''))

    -- No other step than a scale touches the count.
    pub dispatch-Quiet :
        (action : StepAction) (step : RemediationStep) (back : Bool) (s : S)
        → is_scale action ≡ false
        → Quiet count s (dispatch_action ns_default api ns deployment action step back s).1
    unfolding dispatch_action
    dispatch-Quiet StepAction.wait step back s other = (refl, refl)
    dispatch-Quiet StepAction.restart step back s other = patch-Quiet _ s
    dispatch-Quiet StepAction.scale step back s other = ground arith
    dispatch-Quiet StepAction.rollback_deploy step back s other = patch-Quiet _ s
    dispatch-Quiet StepAction.patch_resource_limits step back s other = patch-Quiet _ s
    dispatch-Quiet StepAction.patch_probe step back s other = patch-Quiet _ s
    dispatch-Quiet StepAction.rollback_to_revision step back s other = revision-Quiet step s

    -- A scale, or a step that is none.
    pub dispatch_rule {ℓ} :
        (P : Result (Unit {0}) × S → Type ℓ) (action : StepAction) (step : RemediationStep)
        (back : Bool) (s : S)
        → (action ≡ StepAction.scale → P (scale_step ns_default api ns deployment step back s))
        → (is_scale action ≡ false
            → P (dispatch_action ns_default api ns deployment action step back s))
        → P (dispatch_action ns_default api ns deployment action step back s)
    unfolding dispatch_action
    dispatch_rule P StepAction.scale step back s at_scale other = at_scale refl
    dispatch_rule P StepAction.wait step back s at_scale other = other refl
    dispatch_rule P StepAction.restart step back s at_scale other = other refl
    dispatch_rule P StepAction.rollback_deploy step back s at_scale other = other refl
    dispatch_rule P StepAction.patch_resource_limits step back s at_scale other = other refl
    dispatch_rule P StepAction.patch_probe step back s at_scale other = other refl
    dispatch_rule P StepAction.rollback_to_revision step back s at_scale other = other refl

    pub read-Quiet :
        (s : S) → Quiet count s (call ns_default api (api.read_deployment deployment ns) s).1
    unfolding call
    read-Quiet s = (refl, laws.read_same s.cluster)

    clamp_bounds : (n : ℤ) → (pos 1 ≤ℤ clamp n) × (clamp n ≤ℤ pos 10)
    clamp_bounds n = ground arith

    Quiet-Bounded :
        (old : Option ℤ) (s s' : S) → Quiet count s s' → Bounded count old s → Bounded count old s'
    Quiet-Bounded old s s' (_, same) (inl is_old) = inl (same ∙ is_old)
    Quiet-Bounded old s s' (_, same) (inr (n, is, low, high)) = inr (n, same ∙ is, low, high)

    patch_replicas-Bounded :
        (old : Option ℤ) (n : ℤ) (s : S)
        → Bounded count old s
        → Bounded count old (patch_replicas ns_default api ns deployment (clamp n) s).1
    unfolding call
    patch_replicas-Bounded old n s b =
        elim (Result-cases (api.patch_scale deployment ns (clamp n) s.cluster).0) [
          | inl lost ↦ elim (laws.scale_failed (clamp n) s.cluster lost) [
            | inl same ↦ Quiet-Bounded old s _ (refl, same) b
            | inr is ↦ (let (low, high) = clamp_bounds n in inr (clamp n, is, low, high))
          ]
          | inr (u, got) ↦
              (let (low, high) = clamp_bounds n in
                inr (clamp n, laws.scaled (clamp n) s.cluster u got, low, high))
        ]

    scale-Bounded :
        (old : Option ℤ) (step : RemediationStep) (s : S)
        → Bounded count old s
        → Bounded count old (scale_step ns_default api ns deployment step false s).1
    unfolding scale_step call
    scale-Bounded old step s b =
        and_then_rule (λ x. Bounded count old x.1) _ _ s
          (λ _. Quiet-Bounded old s _ (read-Quiet s) b)
          (λ d _.
            patch_replicas-Bounded old (or_else d.replicas (pos 1) +ℤ or_else step.replicas (pos 0))
              (record (call ns_default api (api.read_deployment deployment ns) s).1 {
                pre_scale = record_once ns deployment (or_else d.replicas (pos 1)) s.pre_scale;
              })
              (Quiet-Bounded old s _ (read-Quiet s) b))

    dispatch-Bounded :
        (old : Option ℤ) (step : RemediationStep) (s : S)
        → Bounded count old s
        → Bounded count old
            (dispatch_action ns_default api ns deployment step.action step false s).1
    dispatch-Bounded old step s b =
        dispatch_rule (λ x. Bounded count old x.1) step.action step false s
          (λ _. scale-Bounded old step s b)
          (λ other. Quiet-Bounded old s _ (dispatch-Quiet step.action step false s other) b)

    dispatch_all-Bounded :
        (old : Option ℤ) (steps : List RemediationStep) (s : S)
        → Bounded count old s
        → Bounded count old (dispatch_all ns_default api ns deployment steps false s).1
    unfolding dispatch_all
    dispatch_all-Bounded old [] s b = b
    dispatch_all-Bounded old (step ∷ steps) s b =
        and_then_rule (λ x. Bounded count old x.1) _ _ s (λ _. dispatch-Bounded old step s b)
          (λ _ _. dispatch_all-Bounded old steps _ (dispatch-Bounded old step s b))

  -- What a run inside the `try` makes of an outcome.
  abbrev Caught {ℓ} : (Result Bool × S → Type ℓ) → Result (Unit {0}) × S → Type ℓ
  Caught P x = (x.0 ≡ raised → P (ok false, x.1)) × (x.0 ≡ ok tt → P (ok true, x.1))

  raised_or_ok : {A : Type 0} {a : A} → raised ≡ ok a → ⊥
  raised_or_ok h = ground arith

  caught_rule {ℓ} :
      (P : Result Bool × S → Type ℓ) (m : Runs (Unit {0})) (s : S)
      → Caught P (m s)
      → P (caught ns_default api m s)
  unfolding caught
  caught_rule P m s (lost, got) = go (m s).0 refl
    where
      go :
          (r : Result (Unit {0}))
          → (m s).0 ≡ r
          → P (elim r [ ok _ ↦ (ok true, (m s).1) | raised ↦ (ok false, (m s).1) ])
      go (ok tt) h = got h
      go raised h = lost h

  module _ (target : RemediationTarget) (count : C → Option ℤ)
      (laws : Documented api target.deployment (namespace_of ns_default api target) count) where
    -- A run raises when the class of API errors cannot be loaded, and otherwise answers whether the
    -- client could be had and every step was carried out.
    pub run_rule {ℓ} :
        (P : Result Bool × S → Type ℓ) (steps : List RemediationStep) (back : Bool) (s : S)
        → ((s' : S) → Quiet count s s' → P (raised, s'))
        → ((s' : S) → Quiet count s s' → P (ok false, s'))
        → ((s' : S)
            → Quiet count s s'
            → Caught P (
                dispatch_all ns_default api
                  (namespace_of ns_default api target)
                  target.deployment
                  steps
                  back
                  s'))
        → P (run ns_default api target steps back s)
    unfolding run call
    run_rule P steps back s lost lost' got =
        and_then_rule P _ _ s (λ _. lost _ (refl, laws.exc_type_same s.cluster))
          (λ _ _. caught_rule P _ _ (
            and_then_rule (Caught P) _ _ _
              (λ _. (
                λ _. lost' _ (refl, laws.client_same _ ∙ laws.exc_type_same s.cluster),
                λ is. absurd (raised_or_ok is),
              ))
              (λ _ _. got _ (refl, laws.client_same _ ∙ laws.exc_type_same s.cluster))))

    -- With an API that does what it documents: while a plan is executed, the count of replicas of its
    -- deployment is what it was before, or between 1 and 10, whichever steps the plan has and whichever
    -- calls raise.
    pub execute-Bounded :
        (steps rollback_steps : List RemediationStep) (s : S)
        → Bounded count
            (count s.cluster)
            (execute ns_default api
              (record { target = target; steps = steps; rollback_steps = rollback_steps })
              s).1
    unfolding execute
    execute-Bounded steps rollback_steps s =
        run_rule (λ x. Bounded count (count s.cluster) x.1) steps false _ (λ s' (_, same). inl same)
          (λ s' (_, same). inl same)
          (λ s' (_, same). (
            λ _.
                dispatch_all-Bounded (namespace_of ns_default api target) target.deployment count
                  laws (count s.cluster) steps s' (inl same),
            λ _.
                dispatch_all-Bounded (namespace_of ns_default api target) target.deployment count
                  laws (count s.cluster) steps s' (inl same),
          ))

  -- A run answers, rather than raise, when the class of API errors can be loaded, whichever calls of
  -- the API raise.
  pub run_returns :
      (target : RemediationTarget) (steps : List RemediationStep) (back : Bool) (s : S)
      → (api.exc_type s.cluster).0 ≡ ok tt
      → (run ns_default api target steps back s).0 ≢ raised
  unfolding run call
  run_returns target steps back s loaded =
      and_then_rule (λ x. x.0 ≢ raised) _ _ s (λ lost. absurd (raised_or_ok (sym lost ∙ loaded)))
        (λ _ _. caught_rule (λ x. x.0 ≢ raised) _ _ ((λ _ h. ground arith), (λ _ h. ground arith)))
