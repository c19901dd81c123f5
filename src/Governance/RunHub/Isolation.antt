-- ===== src/Governance/RunHub/Isolation.antt =====
-- What a step does to the queues of a run.
use intelliops.Base.{
  ◌≡◌, ◌∷◌, ◌+◌, ◌==◌, ◌≤◌, ◌<◌, ◌∙◌, String, refl, false, Option, none, some, List, [], map, arith,
  length, drop, if_rule, length-append,
}
use intelliops.Base.Dict.{lookup, lookup-insert}
use intelliops.Governance.RunHub.{Queue, Hub, is_full, deliver, publish, reaching}

module _ {Step : Type 0} where
  -- A queue that has a size keeps within it.
  abbrev pub IsBounded : Queue Step → Type 0
  IsBounded q = 0 < q.maxsize → length q.steps ≤ q.maxsize

  length-rest : (xs : List Step) → 0 < length xs → length (drop 1 xs) + 1 ≡ length xs
  length-rest [] h = absurd (ground arith)
  length-rest (x ∷ xs) h = omega arith

  -- A step that is delivered leaves a queue within its size: a full one loses its oldest step.
  pub deliver-IsBounded : (x : Step) (q : Queue Step) → IsBounded q → IsBounded (deliver x q)
  unfolding deliver
  deliver-IsBounded x q h =
      if_rule IsBounded (is_full q) _ _
        (λ full sized.
          let some_there : 0 < length q.steps = ground arith in
          omega (
            arith,
            length-append (drop 1 q.steps) (x ∷ []),
            length-rest q.steps some_there,
            h sized,
          ))
        (λ room sized.
          let fits : length q.steps < q.maxsize = ground arith in
          omega (arith, length-append q.steps (x ∷ []), fits))

  reaching_apart :
      (run other : String) (x : Step) (hub : Hub Step) (found : Option (List (Queue Step)))
      → run == other ≡ false
      → lookup other (reaching run x hub found).subs ≡ lookup other hub.subs
  reaching_apart run other x hub none apart = refl
  reaching_apart run other x hub (some qs) apart =
      if_rule (λ (h : Hub Step). lookup other h.subs ≡ lookup other hub.subs) hub.bound _ _
        (λ _. lookup-insert run other (map (deliver x) qs) hub.subs ∙ rw apart refl) (λ _. refl)

  -- A step that is published reaches no subscriber of another run: the queues of any other run stay as
  -- they are.
  pub publish_apart :
      (run other : String) (x : Step) (hub : Hub Step)
      → run == other ≡ false
      → lookup other (publish run x hub).subs ≡ lookup other hub.subs
  unfolding publish
  publish_apart run other x hub apart = reaching_apart run other x hub (lookup run hub.subs) apart
