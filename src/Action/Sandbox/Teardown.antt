-- ===== src/Action/Sandbox/Teardown.antt =====
-- A rehearsal stays in its own namespace and leaves nothing behind, and what a pass rests on.
use intelliops.Base.{
  ap, ap, ◌≡◌, if◌then◌else◌, ◌∷◌, ◌<>◌, ◌⊎◌, String, refl, inl, inr, Bool, true, false, List, [],
  arith, All,
}
use intelliops.Contracts.{PreflightResult, RemediationPlan, RemediationTarget}
use intelliops.Action.Effects.{Result, ok, raised}
use intelliops.Action.Sandbox.{
  Call, loaded, created_namespace, created_deployment, created_replica_set, created_service,
  created_config_map, checked_ready, applied, checked_health, gave_up, deleted_namespace, Log,
  Cluster, Run, ◌>>=◌, ◌>>◌, pure, call, asked, best_effort, or_default, seed_one, seed_all,
  seed_revision_history, clone_service, clone_config_maps, verdict, clone_target, check_health,
  apply_fix, check_ready, clone, torn_down, rehearse, Deployment, ReplicaSet,
}

module _ (k : Cluster) (prod sandbox_ns name : String) (plan : RemediationPlan) where
  -- Whatever is written is written to the namespace of the rehearsal, and the fix is the plan's own
  -- steps there.
  abbrev pub IsConfined : Call → Type 0
  IsConfined (created_namespace ns) = ns ≡ sandbox_ns
  IsConfined (created_deployment ns body) = ns ≡ sandbox_ns
  IsConfined (created_replica_set ns body) = ns ≡ sandbox_ns
  IsConfined (created_service ns body) = ns ≡ sandbox_ns
  IsConfined (created_config_map ns body) = ns ≡ sandbox_ns
  IsConfined (checked_ready target b) = target ≡ clone_target k prod sandbox_ns name plan
  IsConfined (applied p b) = p ≡ record plan { target = clone_target k prod sandbox_ns name plan }
  IsConfined (checked_health target b) = target ≡ clone_target k prod sandbox_ns name plan
  IsConfined (deleted_namespace ns) = ns ≡ sandbox_ns
  IsConfined _ = Unit

  abbrev Confined : Log → Type 0
  Confined = All IsConfined

  record Keeps {A : Type 0} (m : Run A) : Type 0 where
    keeps : (l : Log) → Confined l → Confined (m l).1

  bind-Keeps :
      {A B : Type 0} {m : Run A} {f : A → Run B}
      → Keeps m
      → ((a : A) → Keeps (f a))
      → Keeps (m >>= f)
  unfolding ◌>>=◌
  bind-Keeps {A} {B} {m} {f} km kf = record { keeps = λ l h. go (m l) (km.keeps l h) }
    where
      go :
          (x : Result A × Log)
          → Confined x.1
          → Confined
              (let out : Result B × Log = elim (x.0) [ ok a ↦ f a x.1 | raised ↦ (raised, x.1) ] in
                out).1
      go (ok a, l') c = (kf a).keeps l' c
      go (raised, l') c = c

  then-Keeps : {B : Type 0} {m : Run (Unit {0})} {n : Run B} → Keeps m → Keeps n → Keeps (m >> n)
  unfolding ◌>>◌
  then-Keeps km kn = bind-Keeps km (λ _. kn)

  pure-Keeps : {A : Type 0} (a : A) → Keeps (pure a)
  unfolding pure
  pure-Keeps a = record { keeps = λ l h. h }

  if-Keeps : {A : Type 0} (b : Bool) {m n : Run A} → Keeps m → Keeps n → Keeps (if b then m else n)
  if-Keeps true km kn = km
  if-Keeps false km kn = kn

  call-Keeps :
      {A : Type 0} (c : Call) (answer : Log → Result A) → IsConfined c → Keeps (call c answer)
  unfolding call
  call-Keeps c answer is = record { keeps = λ l h. (is, h) }

  asked-Keeps :
      (c : Bool → Call) (answer : Log → Result Bool)
      → ((b : Bool) → IsConfined (c b))
      → Keeps (asked c answer)
  unfolding asked
  asked-Keeps c answer is = record {
    keeps = λ l h.
        elim (answer l)
          as (λ r.
            Confined
              (let out : Result Bool × Log = elim r [
                | ok b ↦ (ok b, c b ∷ l)
                | raised ↦ (raised, gave_up ∷ l)
              ] in
                out).1) [ ok b ↦ (is b, h) | raised ↦ (tt, h) ];
  }

  best_effort-Keeps : {m : Run (Unit {0})} → Keeps m → Keeps (best_effort m)
  unfolding best_effort
  best_effort-Keeps km = record { keeps = λ l h. km.keeps l h }

  or_default-Keeps : {A : Type 0} (a : A) {m : Run A} → Keeps m → Keeps (or_default a m)
  unfolding or_default
  or_default-Keeps {A} a {m} km = record { keeps = λ l h. go (m l) (km.keeps l h) }
    where
      go :
          (x : Result A × Log)
          → Confined x.1
          → Confined
              (let out : Result A × Log = elim (x.0) [
                | ok b ↦ (ok b, x.1)
                | raised ↦ (ok a, x.1)
              ] in
                out).1
      go (ok b, l') c = c
      go (raised, l') c = c

  seed_one-Keeps : (uid : String) (rs : ReplicaSet) → Keeps (seed_one k prod sandbox_ns name uid rs)
  unfolding seed_one
  seed_one-Keeps uid rs = if-Keeps _ (call-Keeps _ _ refl) (pure-Keeps _)

  seed_all-Keeps :
      (uid : String) (sets : List ReplicaSet) → Keeps (seed_all k prod sandbox_ns name uid sets)
  unfolding seed_all
  seed_all-Keeps uid [] = (pure-Keeps _)
  seed_all-Keeps uid (rs ∷ more) =
      then-Keeps (best_effort-Keeps (seed_one-Keeps uid rs)) (seed_all-Keeps uid more)

  seed-Keeps :
      (uid : String) (d : Deployment) → Keeps (seed_revision_history k prod sandbox_ns name uid d)
  unfolding seed_revision_history
  seed-Keeps uid d = best_effort-Keeps (bind-Keeps (call-Keeps _ _ tt) (seed_all-Keeps uid))

  service-Keeps : Keeps (clone_service k prod sandbox_ns name)
  unfolding clone_service
  service-Keeps = best_effort-Keeps (bind-Keeps (call-Keeps _ _ tt) (λ svc. call-Keeps _ _ refl))

  config_maps-Keeps : (names : List String) → Keeps (clone_config_maps k prod sandbox_ns name names)
  unfolding clone_config_maps
  config_maps-Keeps [] = (pure-Keeps _)
  config_maps-Keeps (cm ∷ more) =
      then-Keeps (best_effort-Keeps (bind-Keeps (call-Keeps _ _ tt) (λ body. call-Keeps _ _ refl)))
        (config_maps-Keeps more)

  check_health-Keeps : Keeps (check_health k prod sandbox_ns name plan)
  unfolding check_health
  check_health-Keeps = bind-Keeps (asked-Keeps _ _ (λ b. refl)) (λ healthy. (pure-Keeps _))

  apply_fix-Keeps : Keeps (apply_fix k prod sandbox_ns name plan)
  unfolding apply_fix
  apply_fix-Keeps =
      bind-Keeps (asked-Keeps _ _ (λ b. refl))
        (λ done. if-Keeps done check_health-Keeps (pure-Keeps _))

  check_ready-Keeps : Keeps (check_ready k prod sandbox_ns name plan)
  unfolding check_ready
  check_ready-Keeps =
      bind-Keeps (asked-Keeps _ _ (λ b. refl))
        (λ ready. if-Keeps ready apply_fix-Keeps (pure-Keeps _))

  clone-Keeps : Keeps (clone k prod sandbox_ns name plan)
  unfolding clone
  clone-Keeps = bind-Keeps (call-Keeps _ _ tt) (λ source. then-Keeps (call-Keeps _ _ refl) (
      then-Keeps (call-Keeps _ _ refl) (
        bind-Keeps (or_default-Keeps _ (bind-Keeps (call-Keeps _ _ tt) (λ d. (pure-Keeps _))))
          (λ uid.
            then-Keeps (seed-Keeps uid source) (then-Keeps service-Keeps (config_maps-Keeps _))))))

  -- The namespace is deleted last, if the clients could be had at all.
  abbrev pub TornDown : Log → Type 0
  TornDown l = (l ≡ loaded ∷ []) ⊎ ((rest : Log) × (l ≡ deleted_namespace sandbox_ns ∷ rest))

  -- A rehearsal always ends with a result, and before it does it deletes its namespace, whatever was
  -- created in it and whichever call raised; unless the clients could not be had, when nothing is
  -- called. All that it creates stands in that namespace, and the checks and the fix, which has the
  -- plan's own steps, are for the clone there: production is only read.
  pub rehearse-TornDown :
      let l = (rehearse k prod sandbox_ns name plan).1 in TornDown l × All IsConfined l
  unfolding rehearse
  rehearse-TornDown =
      elim (k.load [])
        as (λ r.
          let x : PreflightResult × Log = elim r [
            | raised ↦ (
              verdict k prod sandbox_ns name false
                  ("sandbox error: " <> k.error_name (loaded ∷ [])),
              loaded ∷ [],
            )
            | ok _ ↦ torn_down k prod sandbox_ns name plan (
                (clone k prod sandbox_ns name plan >> check_ready k prod sandbox_ns name plan)
                  (loaded ∷ []))
          ] in
          TornDown x.1 × All IsConfined x.1) [
            | raised ↦ (inl refl, (tt, tt))
            | ok _ ↦
                go
                  ((clone k prod sandbox_ns name plan >> check_ready k prod sandbox_ns name plan)
                    (loaded ∷ []))
                  ((then-Keeps clone-Keeps check_ready-Keeps).keeps (loaded ∷ []) (tt, tt))
          ]
    where
      go :
          (x : Result PreflightResult × Log)
          → Confined x.1
          → TornDown (torn_down k prod sandbox_ns name plan x).1
            × All IsConfined (torn_down k prod sandbox_ns name plan x).1
      go (ok p, l) c = (inr (l, refl), (refl, c))
      go (raised, l) c = (inr (l, refl), (refl, c))

  abbrev target : RemediationTarget
  target = clone_target k prod sandbox_ns name plan

  -- What a pass rests on.
  abbrev pub Rehearsed : Log → Log → Type 0
  Rehearsed before l =
      l
      ≡ checked_health target true
        ∷ applied (record plan { target = target }) true
        ∷ checked_ready target true
        ∷ before

  check_ready-Rehearsed :
      (l : Log) (p : PreflightResult)
      → (check_ready k prod sandbox_ns name plan l).0 ≡ ok p
      → p.passed ≡ true
      → Rehearsed l (check_ready k prod sandbox_ns name plan l).1
  unfolding check_ready apply_fix check_health asked pure ◌>>=◌
  check_ready-Rehearsed l p e passed = ground arith

  torn_down-Rehearsed :
      (before : Log) (x : Result PreflightResult × Log)
      → ((p : PreflightResult) → x.0 ≡ ok p → p.passed ≡ true → Rehearsed before x.1)
      → (torn_down k prod sandbox_ns name plan x).0.passed ≡ true
      → (torn_down k prod sandbox_ns name plan x).1
        ≡ deleted_namespace sandbox_ns
          ∷ checked_health target true
          ∷ applied (record plan { target = target }) true
          ∷ checked_ready target true
          ∷ before
  torn_down-Rehearsed before (ok p, l) when_ok passed =
      ap (λ l. deleted_namespace sandbox_ns ∷ l) (when_ok p refl passed)
  torn_down-Rehearsed before (raised, l) when_ok passed = absurd (ground arith)

  abbrev pub PassedAfter : Log → Type 0
  PassedAfter l =
      (before : Log) × (l
        ≡ deleted_namespace sandbox_ns
          ∷ checked_health target true
          ∷ applied (record plan { target = target }) true
          ∷ checked_ready target true
          ∷ before)

  tried-PassedAfter :
      (x : Result (Unit {0}) × Log)
      → let y : Result PreflightResult × Log = elim (x.0) [
        | ok _ ↦ check_ready k prod sandbox_ns name plan x.1
        | raised ↦ (raised, x.1)
      ] in
        (torn_down k prod sandbox_ns name plan y).0.passed ≡ true
        → PassedAfter (torn_down k prod sandbox_ns name plan y).1
  tried-PassedAfter (ok _, l) passed = (
    l,
    torn_down-Rehearsed l (check_ready k prod sandbox_ns name plan l) (check_ready-Rehearsed l)
        passed,
  )
  tried-PassedAfter (raised, l) passed = absurd (ground arith)

  -- A rehearsal passes only if the clone was found ready, then the plan's own steps were carried out
  -- on it, and then it was found healthy; these are the last things that happen before the namespace
  -- is deleted.
  pub rehearse-PassedAfter :
      (rehearse k prod sandbox_ns name plan).0.passed ≡ true
      → PassedAfter (rehearse k prod sandbox_ns name plan).1
  unfolding rehearse ◌>>◌ ◌>>=◌
  rehearse-PassedAfter =
      elim (k.load [])
        as (λ r.
          let x : PreflightResult × Log = elim r [
            | raised ↦ (
              verdict k prod sandbox_ns name false
                  ("sandbox error: " <> k.error_name (loaded ∷ [])),
              loaded ∷ [],
            )
            | ok _ ↦ torn_down k prod sandbox_ns name plan (
                (clone k prod sandbox_ns name plan >> check_ready k prod sandbox_ns name plan)
                  (loaded ∷ []))
          ] in
          x.0.passed ≡ true → PassedAfter x.1) [
            | raised ↦ λ passed. absurd (ground arith)
            | ok _ ↦ tried-PassedAfter (clone k prod sandbox_ns name plan (loaded ∷ []))
          ]
