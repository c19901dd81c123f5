-- ===== src/Action/Kubernetes/Restoring.antt =====
-- What the remediator records of a count, and that a rollback puts it back.
use intelliops.Base.{
  negsuc, ℤ, pos, zero, suc, Bool, true, false, String, ==_refl, Option, none, some, List, [], ◌∷◌,
  any, ◌≡◌, ◌≢◌, refl, sym, ap, ◌∙◌, ◌⊎◌, inl, inr, arith, subst, Bool-cases,
}
use intelliops.Contracts.{RemediationPlan, RemediationStep}
use intelliops.Action.Effects.{ok, raised}
use intelliops.Action.Kubernetes.{
  Api, State, Recorded, recorded, record_once, forget, call, dispatch, dispatch_all, scale_step,
  or_else, execute, rollback, run, namespace_of, forget_target, Deployment, RemediationTarget,
}
use intelliops.Action.Kubernetes.Scaling.{
  Documented, is_scale, and_then_rule, Quiet, dispatch-Quiet, dispatch_rule, run_rule,
}

module _ (ns deployment : String) where
  recorded_new :
      (n : ℤ) (r : Recorded)
      → recorded ns deployment r ≡ none
      → recorded ns deployment (record_once ns deployment n r) ≡ some n
  unfolding recorded record_once
  recorded_new n r h = grind (arith, ==_refl ns, ==_refl deployment)

  recorded_old :
      (n k : ℤ) (r : Recorded)
      → recorded ns deployment r ≡ some n
      → recorded ns deployment (record_once ns deployment k r) ≡ some n
  unfolding record_once
  recorded_old n k r h = grind arith

  forgotten : (r : Recorded) → recorded ns deployment (forget ns deployment r) ≡ none
  unfolding recorded forget
  forgotten [] = refl
  forgotten (((a, b), n) ∷ r) = grind (arith, forgotten r)

or_else-some : (n default : ℤ) → n ≢ pos 0 → or_else (some n) default ≡ n
or_else-some (pos zero) default positive = absurd (positive refl)
or_else-some (pos (suc n)) default positive = refl
or_else-some (negsuc n) default positive = refl

module _ {C T : Type 0} (ns_default : String) (api : Api C T) (ns deployment : String)
    (count : C → Option ℤ) (laws : Documented api deployment ns count) (n : ℤ) where
  abbrev S : Type 0
  S = State ns_default api

  -- The count is recorded, and nothing else has to be known.
  abbrev Known : S → Type 0
  Known s = recorded ns deployment s.pre_scale ≡ some n

  -- The count is recorded, or it still stands.
  abbrev Safe : S → Type 0
  Safe s = ((recorded ns deployment s.pre_scale ≡ none) × (count s.cluster ≡ some n)) ⊎ Known s

  Quiet-Known : (s s' : S) → Quiet ns_default api count s s' → Known s → Known s'
  Quiet-Known s s' (same, _) k = ap (recorded ns deployment) same ∙ k

  Quiet-Safe : (s s' : S) → Quiet ns_default api count s s' → Safe s → Safe s'
  Quiet-Safe s s' (same, still) (inl (new, is)) =
      inl (ap (recorded ns deployment) same ∙ new, still ∙ is)
  Quiet-Safe s s' q (inr k) = inr (Quiet-Known s s' q k)

  lost_or_done : {A : Type 0} {a : A} → raised ≡ ok a → ⊥
  lost_or_done h = ground arith

  -- What a step that returns leaves behind, going forward: the count is safe, and recorded if it
  -- scales.
  scale_forward :
      (step : RemediationStep) (s : S)
      → n ≢ pos 0
      → Safe s
      → let x = scale_step ns_default api ns deployment step false s in x.0 ≡ ok tt → Known x.1
  unfolding scale_step call
  scale_forward step s positive safe =
      and_then_rule ns_default api (λ x. x.0 ≡ ok tt → Known x.1) _ _ s
        (λ _ h. absurd (lost_or_done h)) (λ d read _. noted d read safe)
    where
      noted :
          (d : Deployment)
          → (api.read_deployment deployment ns s.cluster).0 ≡ ok d
          → Safe s
          → recorded ns deployment
              (record_once ns deployment (or_else d.replicas (pos 1)) s.pre_scale)
            ≡ some n
      noted d read (inr k) = recorded_old ns deployment n _ s.pre_scale k
      noted d read (inl (new, is)) =
          subst
            (λ r.
              recorded ns deployment (record_once ns deployment (or_else r (pos 1)) s.pre_scale)
              ≡ some n)
            (sym (laws.read_count s.cluster d read ∙ is))
            (subst (λ k. recorded ns deployment (record_once ns deployment k s.pre_scale) ≡ some n)
              (sym (or_else-some n (pos 1) positive))
              (recorded_new ns deployment n s.pre_scale new))

  dispatch-Known :
      (step : RemediationStep) (s : S)
      → n ≢ pos 0
      → Known s
      → (dispatch ns_default api ns deployment step false s).0 ≡ ok tt
      → Known (dispatch ns_default api ns deployment step false s).1
  dispatch-Known step s positive k =
      dispatch_rule ns_default api ns deployment count laws (λ x. x.0 ≡ ok tt → Known x.1)
        step.action step false s (λ _. scale_forward step s positive (inr k))
        (λ other _.
          Quiet-Known s _
            (dispatch-Quiet ns_default api ns deployment count laws step.action step false s other)
            k)

  dispatch_all-Known :
      (steps : List RemediationStep) (s : S)
      → n ≢ pos 0
      → Known s
      → (dispatch_all ns_default api ns deployment steps false s).0 ≡ ok tt
      → Known (dispatch_all ns_default api ns deployment steps false s).1
  unfolding dispatch_all
  dispatch_all-Known [] s positive k = λ _. k
  dispatch_all-Known (step ∷ steps) s positive k =
      and_then_rule ns_default api (λ x. x.0 ≡ ok tt → Known x.1) _ _ s
        (λ _ h. absurd (lost_or_done h))
        (λ _ here. dispatch_all-Known steps _ positive (dispatch-Known step s positive k here))

  both : {b : Bool} → b ≡ true → b ≡ false → ⊥
  both h k = grind arith

  -- A plan that is carried out and scales has recorded the count.
  dispatch_all_forward :
      (steps : List RemediationStep) (s : S)
      → n ≢ pos 0
      → any (λ (step : RemediationStep). is_scale step.action) steps ≡ true
      → Safe s
      → (dispatch_all ns_default api ns deployment steps false s).0 ≡ ok tt
      → Known (dispatch_all ns_default api ns deployment steps false s).1
  unfolding dispatch_all
  dispatch_all_forward [] s positive scales safe = ground arith
  dispatch_all_forward (step ∷ steps) s positive scales safe =
      and_then_rule ns_default api (λ x. x.0 ≡ ok tt → Known x.1) _ _ s
        (λ _ h. absurd (lost_or_done h))
        (λ _ here. elim (Bool-cases (is_scale step.action)) [
          | inl scale ↦ dispatch_all-Known steps _ positive (
              dispatch_rule ns_default api ns deployment count laws (λ x. x.0 ≡ ok tt → Known x.1)
                step.action step false s (λ _. scale_forward step s positive safe)
                (λ other. absurd (both scale other)) here)
          | inr other ↦ dispatch_all_forward steps _ positive (ground arith) (
              Quiet-Safe s _
                (dispatch-Quiet ns_default api ns deployment count laws step.action step false s
                  other)
                safe)
        ])

  -- A rollback's scale sets what is recorded.
  scale_back :
      (step : RemediationStep) (s : S)
      → Known s
      → (scale_step ns_default api ns deployment step true s).0 ≡ ok tt
      → Known (scale_step ns_default api ns deployment step true s).1
        × (count (scale_step ns_default api ns deployment step true s).1.cluster ≡ some n)
  unfolding scale_step call
  scale_back step s k = rw (k, scale_step) (λ got. (k, laws.scaled n s.cluster tt got))

  abbrev Put : S → Type 0
  Put s = Known s × (count s.cluster ≡ some n)

  Quiet-Put : (s s' : S) → Quiet ns_default api count s s' → Put s → Put s'
  Quiet-Put s s' (same, still) (k, is) = (ap (recorded ns deployment) same ∙ k, still ∙ is)

  dispatch-Put :
      (step : RemediationStep) (s : S)
      → Put s
      → (dispatch ns_default api ns deployment step true s).0 ≡ ok tt
      → Put (dispatch ns_default api ns deployment step true s).1
  dispatch-Put step s p =
      dispatch_rule ns_default api ns deployment count laws (λ x. x.0 ≡ ok tt → Put x.1) step.action
        step true s (λ _. scale_back step s p.0)
        (λ other _.
          Quiet-Put s _
            (dispatch-Quiet ns_default api ns deployment count laws step.action step true s other)
            p)

  dispatch_all-Put :
      (steps : List RemediationStep) (s : S)
      → Put s
      → (dispatch_all ns_default api ns deployment steps true s).0 ≡ ok tt
      → Put (dispatch_all ns_default api ns deployment steps true s).1
  unfolding dispatch_all
  dispatch_all-Put [] s p = λ _. p
  dispatch_all-Put (step ∷ steps) s p =
      and_then_rule ns_default api (λ x. x.0 ≡ ok tt → Put x.1) _ _ s
        (λ _ h. absurd (lost_or_done h))
        (λ _ here. dispatch_all-Put steps _ (dispatch-Put step s p here))

  -- A rollback that is carried out and scales has put the recorded count back.
  dispatch_all_back :
      (steps : List RemediationStep) (s : S)
      → any (λ (step : RemediationStep). is_scale step.action) steps ≡ true
      → Known s
      → (dispatch_all ns_default api ns deployment steps true s).0 ≡ ok tt
      → Put (dispatch_all ns_default api ns deployment steps true s).1
  unfolding dispatch_all
  dispatch_all_back [] s scales k = ground arith
  dispatch_all_back (step ∷ steps) s scales k =
      and_then_rule ns_default api (λ x. x.0 ≡ ok tt → Put x.1) _ _ s
        (λ _ h. absurd (lost_or_done h))
        (λ _ here. elim (Bool-cases (is_scale step.action)) [
          | inl scale ↦ dispatch_all-Put steps _ (
              dispatch_rule ns_default api ns deployment count laws (λ x. x.0 ≡ ok tt → Put x.1)
                step.action step true s (λ _. scale_back step s k)
                (λ other. absurd (both scale other)) here)
          | inr other ↦ dispatch_all_back steps _ (ground arith) (
              Quiet-Known s _
                (dispatch-Quiet ns_default api ns deployment count laws step.action step true s
                  other)
                k)
        ])

module _ {C T : Type 0} (ns_default : String) (api : Api C T) (target : RemediationTarget)
    (count : C → Option ℤ)
    (laws : Documented api target.deployment (namespace_of ns_default api target) count)
    (n : ℤ) where
  run_forward :
      (steps : List RemediationStep) (s : State ns_default api)
      → n ≢ pos 0
      → any (λ (step : RemediationStep). is_scale step.action) steps ≡ true
      → Safe ns_default api (namespace_of ns_default api target) target.deployment count laws n s
      → (run ns_default api target steps false s).0 ≡ ok true
      → Known ns_default api
          (namespace_of ns_default api target)
          target.deployment
          count
          laws
          n
          (run ns_default api target steps false s).1
  run_forward steps s positive scales safe =
      run_rule ns_default api target count laws
        (λ x.
          x.0 ≡ ok true
          → Known ns_default api (namespace_of ns_default api target) target.deployment count laws n
              x.1)
        steps false s (λ _ _ h. absurd (ground arith)) (λ _ _ h. absurd (ground arith))
        (λ s' q. (
          λ _ h. absurd (ground arith),
          λ here _.
              dispatch_all_forward ns_default api (namespace_of ns_default api target)
                target.deployment count laws n steps s' positive scales
                (Quiet-Safe ns_default api (namespace_of ns_default api target) target.deployment
                  count laws n s s' q safe)
                here,
        ))

  run_back :
      (steps : List RemediationStep) (s : State ns_default api)
      → any (λ (step : RemediationStep). is_scale step.action) steps ≡ true
      → Known ns_default api (namespace_of ns_default api target) target.deployment count laws n s
      → (run ns_default api target steps true s).0 ≡ ok true
      → count (run ns_default api target steps true s).1.cluster ≡ some n
  run_back steps s scales known =
      run_rule ns_default api target count laws (λ x. x.0 ≡ ok true → count x.1.cluster ≡ some n)
        steps true s (λ _ _ h. absurd (ground arith)) (λ _ _ h. absurd (ground arith))
        (λ s' q. (
          λ _ h. absurd (ground arith),
          λ here _.
              (dispatch_all_back ns_default api (namespace_of ns_default api target)
                target.deployment count laws n steps s' scales
                (Quiet-Known ns_default api (namespace_of ns_default api target) target.deployment
                  count laws n s s' q known)
                here).1,
        ))

-- With an API that does what it documents: when a plan that scales was carried out on a deployment of n
-- replicas (not of none), and its rollback scales and is carried out too, then the deployment has n
-- replicas again, whatever happened to the cluster in between and whichever steps stand among the
-- scales.
pub rollback-execute :
    {C T : Type 0} (ns_default : String) (api : Api C T) (plan : RemediationPlan)
    (count : C → Option ℤ) (n : ℤ) (s : State ns_default api) (between : C → C)
    → Documented api plan.target.deployment (namespace_of ns_default api plan.target) count
    → count s.cluster ≡ some n
    → n ≢ pos 0
    → any (λ (step : RemediationStep). is_scale step.action) plan.steps ≡ true
    → any (λ (step : RemediationStep). is_scale step.action) plan.rollback_steps ≡ true
    → let (answer, s') = execute ns_default api plan s in
      let (answer', s'') =
        rollback ns_default api plan (record s' { cluster = between s'.cluster }) in
      answer ≡ ok true → answer' ≡ ok true → count s''.cluster ≡ some n
unfolding execute rollback
rollback-execute ns_default api plan count n s between laws is positive forth back carried_out =
    let target = plan.target in
    let started = forget_target ns_default api target s in
    let known =
      run_forward ns_default api target count laws n plan.steps started positive forth
        (inl (forgotten (namespace_of ns_default api target) target.deployment s.pre_scale, is))
        carried_out in
    and_then_rule ns_default api (λ x. x.0 ≡ ok true → count x.1.cluster ≡ some n) _ _ _
      (λ _ h. absurd (ground arith))
      (λ done_it here h.
        run_back ns_default api target count laws n plan.rollback_steps _ back known (here ∙ h))
