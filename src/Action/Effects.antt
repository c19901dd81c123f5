-- ===== src/Action/Effects.antt =====
-- What action-service asks of the objects that are handed to it (the governance gate, the
-- remediator, the health checker, the sandbox), as a log of calls. A call may raise. The answers
-- are functions of the log so far, so the objects may keep any state.
use intelliops.Base.{ℕ, ◌+◌, String, Bool, true, false, List, ◌∷◌, ◌≡◌, refl, ◌⊎◌, inl, inr, count}
use intelliops.Contracts.{
  Situation, RemediationPlan, RemediationTarget, PreflightResult, ApprovalRequest, AuditRecord,
}

pub data Result (A : Type 0) : Type 0 where
  ok : A → Result A
  raised : Result A

pub data Effect (F : Type 0) : Type 0 where
  check_rbac : (actor action resource : String) → Effect F
  write_audit : AuditRecord → Effect F
  request_approval : ApprovalRequest → Effect F
  await_decision : String → F → Effect F
  expire : (approval_id actor : String) → Effect F
  rehearse : Situation F → RemediationPlan → Effect F
  execute : RemediationPlan → Effect F
  rollback : RemediationPlan → Effect F
  check_health : Situation F → RemediationTarget → Effect F

-- The latest call comes first.
abbrev pub Log : Type 0 → Type 0
Log F = List (Effect F)

pub record Env (F : Type 0) : Type 0 where
  pub check_rbac : Log F → String → String → String → Result Bool
  pub write_audit : Log F → AuditRecord → Result (Unit {0})
  pub request_approval : Log F → ApprovalRequest → Result ApprovalRequest
  pub await_decision : Log F → String → F → Result ApprovalRequest
  -- whether the gate has an `expire`
  pub has_expire : Bool
  pub expire : Log F → String → String → Result (Unit {0})
  pub rehearse : Log F → Situation F → RemediationPlan → Result PreflightResult
  pub execute : Log F → RemediationPlan → Result Bool
  pub rollback : Log F → RemediationPlan → Result Bool
  pub check_health : Log F → Situation F → RemediationTarget → Result Bool
  -- the clock at its nth reading
  pub now : ℕ → ℕ
  -- `get_settings()`
  pub k8s_namespace : String
  pub remediator_mode : String

pub record World (F : Type 0) : Type 0 where
  pub log : Log F
  pub readings : ℕ

abbrev pub M : Type 0 → Type 0 → Type 0
M F A = World F → Result A × World F

infixl 5 ◌>>=◌ ◌>>◌
abbrev pub ◌>>=◌ : {F A B : Type 0} → M F A → (A → M F B) → M F B
◌>>=◌ m f w = let (r, w') = m w in elim r [ ok a ↦ f a w' | raised ↦ (raised, w') ]

abbrev pub ◌>>◌ : {F A B : Type 0} → M F A → M F B → M F B
m >> k = m >>= λ _. k

abbrev pub pure : {F A : Type 0} → A → M F A
pure a w = (ok a, w)

-- A call is logged when it is made, also if it raises.
abbrev pub call : {F A : Type 0} → Effect F → (Log F → Result A) → M F A
call e answer w = (answer w.log, record w { log = e ∷ w.log })

-- `try: m except Exception: pass`
abbrev pub best_effort : {F : Type 0} → M F (Unit {0}) → M F (Unit {0})
best_effort m w = (ok tt, (m w).1)

abbrev pub clock : {F : Type 0} → Env F → M F ℕ
clock env w = (ok (env.now w.readings), record w { readings = w.readings + 1 })

pub Result-cases : {A : Type 0} (r : Result A) → (r ≡ raised) ⊎ ((a : A) × (r ≡ ok a))
Result-cases (ok a) = inr (a, refl)
Result-cases raised = inl refl

-- The calls that change the cluster.
abbrev pub is_mutation : {F : Type 0} → Effect F → Bool
is_mutation (execute _) = true
is_mutation (rollback _) = true
is_mutation _ = false

abbrev pub mutations : {F : Type 0} → Log F → ℕ
mutations = count is_mutation

-- A call and what follows it: a property of the run holds if it holds for each answer.
pub call_rule {ℓ} :
    {F A B : Type 0} (P : Result B × World F → Type ℓ) (e : Effect F) (answer : Log F → Result A)
    (f : A → M F B) (w : World F)
    → (answer w.log ≡ raised → P (raised, record w { log = e ∷ w.log }))
    → ((a : A) → answer w.log ≡ ok a → P (f a (record w { log = e ∷ w.log })))
    → P ((call e answer >>= f) w)
call_rule {F} {A} {B} P e answer f w lost got = go (answer w.log) refl
  where
    go :
        (r : Result A)
        → answer w.log ≡ r
        → P (elim r [
          | ok a ↦ f a (record w { log = e ∷ w.log })
          | raised ↦ (raised, record w { log = e ∷ w.log })
        ])
    go (ok a) h = got a h
    go raised h = lost h

-- The same for any run in front, of which nothing has to be known.
pub bind_rule {ℓ} :
    {F A B : Type 0} (P : Result B × World F → Type ℓ) (m : M F A) (f : A → M F B) (w : World F)
    → ((w' : World F) → P (raised, w'))
    → ((a : A) (w' : World F) → P (f a w'))
    → P ((m >>= f) w)
bind_rule {F} {A} {B} P m f w lost got = go (m w)
  where
    go :
        (x : Result A × World F)
        → P (
            let out : Result B × World F = elim (x.0) [ ok a ↦ f a x.1 | raised ↦ (raised, x.1) ] in
            out)
    go (ok a, w') = got a w'
    go (raised, w') = lost w'
