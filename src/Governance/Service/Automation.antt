-- ===== src/Governance/Service/Automation.antt =====
-- services/governance/app.py: which playbooks run without a human, after any requests.
use intelliops.Base.{
  [], ◌∷◌, List, all, refl, true, false, String, some, ◌≡◌, ap, arith, inl, inr, subst, sym, Bool,
  false, true, ◌∙◌, List, ℕ, all, ◌∷◌,
}
use intelliops.Base.Dict.{lookup-empty, lookup, insert, insert_cases}
use intelliops.Contracts.{HitlMode, Playbook, ProposedPlaybook, is_auto}
use intelliops.Governance.Proposals.{register, add}
use intelliops.Governance.Rbac.{RbacPolicy}
use intelliops.Governance.Service.{Service, Request, may, playbook_resource}
use intelliops.Governance.Service.Steps.{Change, serve, serve_rule}

all-true {ℓ} : {A : Type ℓ} (xs : List A) → all (λ _. true) xs ≡ true
all-true [] = refl
all-true (x ∷ xs) = all-true xs

module _ (fnmatch : String → String → Bool) (policy : RbacPolicy) where
  -- What a playbook needs to stand under an id: to be its own, and someone who may graduate it when
  -- it runs on its own.
  abbrev Vetted : String → Playbook → Type 0
  Vetted id pb =
      (pb.id ≡ id)
      × (is_auto pb.hitl_mode ≡ true
          → (by : String) × (may fnmatch policy by "graduate" (playbook_resource pb.id) ≡ true))

  -- Every playbook is vetted, and those that are stored as proposals are not automatic.
  abbrev pub IsVetted : Service → Type 0
  IsVetted v =
      ((id : String) (pb : Playbook) → lookup id v.registry ≡ some pb → Vetted id pb)
      × ((id : String) (p : ProposedPlaybook)
          → lookup id v.proposals ≡ some p
          → is_auto p.playbook.hitl_mode ≡ false)

  -- It hangs on the two stores alone.
  same-IsVetted :
      (v w : Service)
      → w.registry ≡ v.registry
      → w.proposals ≡ v.proposals
      → IsVetted v
      → IsVetted w
  same-IsVetted v w playbooks proposals (h, k) = (
    λ id pb there. h id pb (sym (ap (λ d. lookup id d) playbooks) ∙ there),
    λ id p there. k id p (sym (ap (λ d. lookup id d) proposals) ∙ there),
  )

  register-IsVetted :
      (pb : Playbook) (v w : Service)
      → w.registry ≡ register pb v.registry
      → w.proposals ≡ v.proposals
      → Vetted pb.id pb
      → IsVetted v
      → IsVetted w
  unfolding register
  register-IsVetted pb v w put proposals vetted (h, k) = (
    λ id x there.
        elim (insert_cases pb.id id pb x v.registry (sym (ap (λ d. lookup id d) put) ∙ there)) [
          | inl (at_id, same) ↦
              subst (λ y. Vetted id y) same (subst (λ j. Vetted j pb) at_id vetted)
          | inr before ↦ h id x before
        ],
    λ id p there. k id p (sym (ap (λ d. lookup id d) proposals) ∙ there),
  )

  propose-IsVetted :
      (key : String) (p : ProposedPlaybook) (v w : Service)
      → w.registry ≡ v.registry
      → w.proposals ≡ insert key p v.proposals
      → is_auto p.playbook.hitl_mode ≡ false
      → IsVetted v
      → IsVetted w
  propose-IsVetted key p v w playbooks put tame (h, k) = (
    λ id pb there. h id pb (sym (ap (λ d. lookup id d) playbooks) ∙ there),
    λ id x there.
        elim (insert_cases key id p x v.proposals (sym (ap (λ d. lookup id d) put) ∙ there)) [
          | inl (_, same) ↦
              subst (λ (y : ProposedPlaybook). is_auto y.playbook.hitl_mode ≡ false) same tame
          | inr before ↦ k id x before
        ],
  )

  not_both : {b : Bool} → b ≡ false → b ≡ true → ⊥
  not_both h k = grind arith

  change-IsVetted :
      (r : Request) (v w : Service) → Change fnmatch policy r v w → IsVetted v → IsVetted w
  unfolding add register
  change-IsVetted r v w (Change.nothing a _ b) h = same-IsVetted v w a b h
  change-IsVetted r v w (Change.enters pb by _ _ auto _ put _ same) h =
      register-IsVetted pb v w put same (refl, λ is. (by, auto is)) h
  change-IsVetted r v w (Change.graduates id by pb _ there mayy _ put _ same) h =
      register-IsVetted (record pb { hitl_mode = HitlMode.auto }) v w put same
        (
          refl,
          λ _. (
            by,
            subst (λ j. may fnmatch policy by "graduate" (playbook_resource j) ≡ true)
                (sym (h.0 id pb there).0) mayy,
          ),
        )
        h
  change-IsVetted r v w (Change.demotes id by pb _ there _ _ _ put _ same) h =
      register-IsVetted (record pb { hitl_mode = HitlMode.hitl }) v w put same
        (refl, λ auto. absurd (not_both refl auto)) h
  change-IsVetted r v w (Change.opens _ _ _ a b) h = same-IsVetted v w a b h
  change-IsVetted r v w (Change.decides _ _ _ _ _ _ _ _ _ _ _ _ a b) h = same-IsVetted v w a b h
  change-IsVetted r v w (Change.expires _ _ _ _ _ _ _ _ _ a b) h = same-IsVetted v w a b h
  change-IsVetted r v w (Change.drafts now p draft _ _ _ put same _) h =
      propose-IsVetted _ _ v w same put refl h
  change-IsVetted r v w (Change.accepts id by p _ there _ _ _ put playbooks _) (h, k) =
      let mid : Service = record w { proposals = v.proposals } in
      let tame = k id p there in
      propose-IsVetted id _ mid w refl put tame (
        register-IsVetted p.playbook v mid playbooks refl (refl, λ is. absurd (not_both tame is))
          (h, k))
  change-IsVetted r v w (Change.turns_down id by p _ there _ _ _ put same _) (h, k) =
      propose-IsVetted id _ v w same put (k id p there) (h, k)
  change-IsVetted r v w (Change.clears_approvals _ _ a b) h = same-IsVetted v w a b h
  change-IsVetted r v w (Change.clears_proposals _ gone a _) (h, k) = (
    λ id pb there. h id pb (sym (ap (λ d. lookup id d) a) ∙ there),
    λ id p there. absurd (lookup-empty id p _ gone there),
  )

  -- When it holds before them, it holds after any requests: every playbook of the registry stands
  -- under its own id, one in the automatic mode has someone with the permission "graduate" on it,
  -- and no playbook that is stored as a proposal is in the automatic mode.
  pub serve-IsVetted :
      (rs : List (ℕ × Request)) (v : Service) → IsVetted v → IsVetted (serve fnmatch policy rs v)
  serve-IsVetted rs v h =
      serve_rule fnmatch policy IsVetted (λ _. true) (λ r v w _. change-IsVetted r v w) rs v
        (all-true rs) h
