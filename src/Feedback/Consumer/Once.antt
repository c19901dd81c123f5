-- ===== src/Feedback/Consumer/Once.antt =====
-- Graduation happens once, on clean evidence, until a demotion.
use intelliops.Base.{
  refl, ap, inl, inr, not, ◌&&◌, ◌∙◌, Bool-cases, starts_with, ◌↔◌, ◌≤ℤ◌, pos, ◌+◌, ◌≤◌, Bool, true,
  false, String, ◌==◌, ==_iff, List, [], ◌∷◌, ◌++◌, count, ◌≡◌, ◌≢◌, arith, if◌then◌else◌, ◌⊎◌,
}
use intelliops.Contracts.{
  is_escalated, TrainingRecord, RemediationResult, HitlMode, success, failure, rolled_back,
  escalated, RemediationOutcome, is_auto,
}
use intelliops.Feedback.Graduate.{speaks_for, speaks_against, should_graduate_iff}
use intelliops.Feedback.Consumer.{
  Call, graduate, demote, State, Config, member, discard, handle, run, append_record, demote_failed,
  graduate_clean, demotes, is_ignored, label_outcome, should_graduate, playbook_stats, did_fail,
}

abbrev pub is_graduation : String → Call → Bool
is_graduation pid (graduate p) = p == pid
is_graduation pid (demote p) = false

abbrev pub is_demotion : String → Call → Bool
is_demotion pid (graduate p) = false
is_demotion pid (demote p) = p == pid

member-discard_ne : (p q : String) (l : List String) → p ≢ q → member q (discard p l) ≡ member q l
member-discard_ne p q [] h = ground arith
member-discard_ne p q (x ∷ l) h =
    ground (arith, ==_iff x p, ==_iff x q, ==_iff p q, member-discard_ne p q l h)

-- The graduations of a playbook, against its demotions and its place in the set.
abbrev pub Balanced : String → State → Type 0
Balanced pid s =
    count (is_graduation pid) s.calls
    ≤ count (is_demotion pid) s.calls + (if member pid s.graduated then 1 else 0)

handle-Balanced :
    (pid : String) (config : Config) (o : RemediationOutcome) (s : State)
    → Balanced pid s
    → Balanced pid (handle config o s)
unfolding handle append_record demote_failed graduate_clean
handle-Balanced pid config o s h =
    ground (arith, ==_iff o.playbook_id pid, member-discard_ne o.playbook_id pid s.graduated)

-- However the outcomes come, the graduations of a playbook exceed its demotions by at most one, and
-- only while it is in the graduated set, if that holds at the start.
pub run-Balanced :
    (pid : String) (config : Config) (os : List RemediationOutcome) (s : State)
    → Balanced pid s
    → Balanced pid (run config os s)
unfolding run
run-Balanced pid config [] s h = h
run-Balanced pid config (o ∷ os) s h =
    run-Balanced pid config os (handle config o s) (handle-Balanced pid config o s h)

-- A failed or rolled back run of a named playbook in the automatic mode, where a demoter is given.
abbrev pub FailedUnattended : Config → RemediationOutcome → Type 0
FailedUnattended config o =
    (o.playbook_id ≢ "")
    × (config.has_demoter ≡ true)
    × (o.hitl_mode ≡ HitlMode.auto)
    × ((o.result ≡ failure) ⊎ (o.result ≡ rolled_back))

-- A named playbook that is not graduated, with enough records for it and none against it.
abbrev pub EarnsGraduation : Config → String → List String → List TrainingRecord → Type 0
EarnsGraduation config pid graduated store =
    (pid ≢ "")
    × (member pid graduated ≡ false)
    × (config.min_successes ≤ℤ pos (count (speaks_for pid config.count_simulated) store))
    × (count (speaks_against pid) store ≡ 0)

-- What a handled outcome asks of governance, in the order in which the code decides.
abbrev pub Asks : Config → RemediationOutcome → State → State → Type 0
Asks config o s s' =
    let pid = o.playbook_id in
    (FailedUnattended config o
      → (s'.calls ≡ demote pid ∷ s.calls) × (member pid s'.graduated ≡ false))
    × (¬ FailedUnattended config o
        → EarnsGraduation config pid s.graduated s'.store
        → (s'.calls ≡ graduate pid ∷ s.calls) × (member pid s'.graduated ≡ true))
    × (¬ FailedUnattended config o
        → ¬ EarnsGraduation config pid s.graduated s'.store
        → (s'.calls ≡ s.calls) × (s'.graduated ≡ s.graduated))

member-discard : (pid : String) (l : List String) → member pid (discard pid l) ≡ false
member-discard pid [] = refl
member-discard pid (x ∷ l) = ground (arith, member-discard pid l)

is_auto_iff : (m : HitlMode) → (is_auto m ≡ true) ↔ (m ≡ HitlMode.auto)
is_auto_iff HitlMode.auto = (λ _. refl, λ _. refl)
is_auto_iff HitlMode.hitl = (λ h. absurd (ground arith), λ h. ap is_auto h)
is_auto_iff HitlMode.disabled = (λ h. absurd (ground arith), λ h. ap is_auto h)

did_fail_iff : (r : RemediationResult) → (did_fail r ≡ true) ↔ ((r ≡ failure) ⊎ (r ≡ rolled_back))
did_fail_iff r = (
  λ h.
      elim r as (λ r. did_fail r ≡ true → (r ≡ failure) ⊎ (r ≡ rolled_back)) [
        | failure ↦ λ _. inl refl
        | rolled_back ↦ λ _. inr refl
        | success ↦ λ h. absurd (ground arith)
        | escalated ↦ λ h. absurd (ground arith)
      ]
        h,
  λ h. elim h [ inl e ↦ ap did_fail e | inr e ↦ ap did_fail e ],
)

demotes_iff :
    (config : Config) (o : RemediationOutcome)
    → (demotes config o ≡ true) ↔ FailedUnattended config o
unfolding demotes
demotes_iff config o =
    let named = ==_iff o.playbook_id "" in
    let auto = is_auto_iff o.hitl_mode in
    let fail = did_fail_iff o.result in
    (
      λ h. (λ e. ground (arith, named), ground arith, auto.0 (ground arith), fail.0 (ground arith)),
      λ (n, d, a, f). let a' = auto.1 a in let f' = fail.1 f in ground (arith, named),
    )

-- The guard of a graduation.
abbrev graduates : Config → String → List String → List TrainingRecord → Bool
graduates config pid graduated store =
    not (pid == "")
    && not (member pid graduated)
    && should_graduate (playbook_stats store pid config.count_simulated) config.min_successes

graduates_iff :
    (config : Config) (pid : String) (graduated : List String) (store : List TrainingRecord)
    → (graduates config pid graduated store ≡ true) ↔ EarnsGraduation config pid graduated store
graduates_iff config pid graduated store =
    let named = ==_iff pid "" in
    let clean = should_graduate_iff store pid config.count_simulated config.min_successes in
    (
      λ h.
          let (for_it, against_it) = clean.0 (ground arith) in
          (λ e. ground (arith, named), ground arith, for_it, against_it),
      λ (n, m, a, b). let c' = clean.1 (a, b) in ground (arith, named),
    )

-- What the code does, by its own guards.
handle_guards :
    (config : Config) (o : RemediationOutcome) (s : State)
    → let s' = handle config o s in
      let earns = graduates config o.playbook_id s.graduated s'.store in
      (is_ignored o ≡ true → s' ≡ s)
      × (is_ignored o ≡ false
          → (s'.store ≡ s.store ++ (label_outcome o ∷ []))
            × (demotes config o ≡ true
                → (s'.calls ≡ demote o.playbook_id ∷ s.calls)
                  × (s'.graduated ≡ discard o.playbook_id s.graduated))
            × (demotes config o ≡ false
                → earns ≡ true
                → (s'.calls ≡ graduate o.playbook_id ∷ s.calls)
                  × (member o.playbook_id s'.graduated ≡ true))
            × (demotes config o ≡ false
                → earns ≡ false
                → (s'.calls ≡ s.calls) × (s'.graduated ≡ s.graduated)))
unfolding handle append_record demote_failed graduate_clean
handle_guards config o s = (
  λ h. ground arith,
  λ h. (
    ground arith,
    λ d. (ground arith, ground arith),
    λ d e. (ground arith, ground (arith, ==_iff o.playbook_id o.playbook_id)),
    λ d e. (ground arith, ground arith),
  ),
)

is_false : {P : Type 0} {b : Bool} → (b ≡ true) ↔ P → ¬ P → b ≡ false
is_false {b = true} iff not_so = absurd (not_so (iff.0 refl))
is_false {b = false} iff not_so = refl

-- No evidence about the playbook: an escalation, or an attempt that was interrupted.
abbrev pub NoEvidence : RemediationOutcome → Type 0
NoEvidence o = (o.result ≡ escalated) ⊎ (starts_with "interrupted:" o.health_after ≡ true)

is_ignored_iff : (o : RemediationOutcome) → (is_ignored o ≡ true) ↔ NoEvidence o
unfolding is_ignored
is_ignored_iff o = (
  λ h. elim (Bool-cases (is_escalated o.result)) [
    | inl e ↦ inl (go o.result e)
    | inr e ↦ inr (ground arith)
  ],
  λ h. elim h [
    | inl e ↦ let e' : is_escalated o.result ≡ true = ap is_escalated e in ground arith
    | inr e ↦ ground arith
  ],
)
  where
    go : (r : RemediationResult) → is_escalated r ≡ true → r ≡ escalated
    go escalated h = refl
    go success h = absurd (ground arith)
    go failure h = absurd (ground arith)
    go rolled_back h = absurd (ground arith)

-- An escalation, or an outcome whose health reading starts with "interrupted:", changes nothing.
-- Any other outcome is stored exactly once, labelled. Then, where a demoter is given, a failed or
-- rolled back run of a named playbook in the automatic mode demotes it. Otherwise a named playbook
-- that is not graduated is graduated exactly if at least `min_successes` records of the store speak
-- for it and none against it. In every other case nothing is asked.
pub handle_calls :
    (config : Config) (o : RemediationOutcome) (s : State)
    → let s' = handle config o s in
      (NoEvidence o → s' ≡ s)
      × (¬ NoEvidence o → (s'.store ≡ s.store ++ (label_outcome o ∷ [])) × Asks config o s s')
handle_calls config o s =
    let g = handle_guards config o s in
    let failed = demotes_iff config o in
    let earned = graduates_iff config o.playbook_id s.graduated (handle config o s).store in
    (
      λ h. g.0 ((is_ignored_iff o).1 h),
      λ h.
          let (stored, down, up, still) = g.1 (is_false (is_ignored_iff o) h) in
          (
            stored,
            (
              λ f.
                  let (calls, set) = down (failed.1 f) in
                  (calls, ap (member o.playbook_id) set ∙ member-discard o.playbook_id s.graduated),
              λ f e. up (is_false failed f) (earned.1 e),
              λ f e. still (is_false failed f) (is_false earned e),
            ),
          ),
    )
