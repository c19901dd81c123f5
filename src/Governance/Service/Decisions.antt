-- ===== src/Governance/Service/Decisions.antt =====
-- services/governance/app.py: the approvals, as any sequence of requests leaves them.
use intelliops.Base.{
  inl, inr, refl, subst, sym, String, ◌==◌, some, ◌≡◌, ap, arith, Bool, false, not, true, List, ◌∙◌,
  subst, ==_iff, sym, ℕ, all,
}
use intelliops.Base.Dict.{lookup-empty, lookup, insert, lookup-insert, insert_cases}
use intelliops.Contracts.{ApprovalRequest}
use intelliops.Governance.Rbac.{RbacPolicy}
use intelliops.Governance.Service.{Service, Request, may, playbook_resource, permission_of}
use intelliops.Governance.Service.Steps.{Change, serve, serve_rule}

-- Whether the request puts another approval in this one's place, or none.
abbrev pub keeps_approval : String → Request → Bool
keeps_approval id (Request.create_approval request) = not (request.id == id)
keeps_approval id Request.reset_approvals = false
keeps_approval _ _ = true

-- Whether an approval that the request creates is still to be decided.
abbrev pub creates_pending : Request → Bool
creates_pending (Request.create_approval request) = request.status == "pending"
creates_pending _ = true

module _ (fnmatch : String → String → Bool) (policy : RbacPolicy) where
  -- The approval is there, and decided.
  abbrev pub Decided : String → ApprovalRequest → Service → Type 0
  Decided id req v = (lookup id v.approvals ≡ some req) × (req.status == "pending" ≡ false)

  same-Decided :
      (id : String) (req : ApprovalRequest) (v w : Service)
      → w.approvals ≡ v.approvals
      → Decided id req v
      → Decided id req w
  same-Decided id req v w same (there, done) = (ap (λ d. lookup id d) same ∙ there, done)

  -- Another request's approval changes, or that of one that still waits.
  insert-Decided :
      (id j : String) (req request : ApprovalRequest) (v w : Service)
      → ((j == id) ≡ true
          → (old : ApprovalRequest) × (lookup j v.approvals ≡ some old) × (old.status ≡ "pending"))
      → w.approvals ≡ insert j request v.approvals
      → Decided id req v
      → Decided id req w
  insert-Decided id j req request v w waits put (there, done) = grind (
    arith,
    there,
    done,
    waits,
    put,
    lookup-insert j id request v.approvals,
    ==_iff j id,
    ==_iff req.status "pending",
  )

  clashes : {b : Bool} → not b ≡ true → b ≡ true → ⊥
  clashes h k = grind arith

  ne : false ≡ true → ⊥
  ne h = ground arith

  change-Decided :
      (id : String) (req : ApprovalRequest) (r : Request) (v w : Service)
      → keeps_approval id r ≡ true
      → Change fnmatch policy r v w
      → Decided id req v
      → Decided id req w
  change-Decided id req r v w ok (Change.nothing _ same _) h = same-Decided id req v w same h
  change-Decided id req r v w ok (Change.enters _ _ _ _ _ _ _ same _) h =
      same-Decided id req v w same h
  change-Decided id req r v w ok (Change.graduates _ _ _ _ _ _ _ _ same _) h =
      same-Decided id req v w same h
  change-Decided id req r v w ok (Change.demotes _ _ _ _ _ _ _ _ _ same _) h =
      same-Decided id req v w same h
  change-Decided id req r v w ok (Change.opens request eq put _ _) h =
      insert-Decided id request.id req request v w
        (λ same. absurd (clashes (subst (λ r. keeps_approval id r ≡ true) eq ok) same)) put h
  change-Decided id req r v w ok (Change.decides j _ _ by old _ there waits _ _ _ put _ _) h =
      insert-Decided id j req _ v w (λ _. (old, there, waits)) put h
  change-Decided id req r v w ok (Change.expires j by old _ there waits _ _ put _ _) h =
      insert-Decided id j req _ v w (λ _. (old, there, waits)) put h
  change-Decided id req r v w ok (Change.drafts _ _ _ _ _ _ _ _ same) h =
      same-Decided id req v w same h
  change-Decided id req r v w ok (Change.accepts _ _ _ _ _ _ _ _ _ _ same) h =
      same-Decided id req v w same h
  change-Decided id req r v w ok (Change.turns_down _ _ _ _ _ _ _ _ _ _ same) h =
      same-Decided id req v w same h
  change-Decided id req r v w ok (Change.clears_approvals eq _ _ _) h =
      absurd (ne (subst (λ r. keeps_approval id r ≡ true) eq ok))
  change-Decided id req r v w ok (Change.clears_proposals _ _ _ same) h =
      same-Decided id req v w same h

  -- An approval that is decided stays as it is through any requests but a new one under its id and
  -- the reset of all approvals: the first decision, or the expiry, is the last.
  pub serve-Decided :
      (id : String) (req : ApprovalRequest) (rs : List (ℕ × Request)) (v : Service)
      → all (λ (x : ℕ × Request). keeps_approval id x.1) rs ≡ true
      → Decided id req v
      → Decided id req (serve fnmatch policy rs v)
  serve-Decided id req rs v ok h =
      serve_rule fnmatch policy (Decided id req) (keeps_approval id) (change-Decided id req) rs v ok
        h

  -- Every approval that stands as approved was approved by someone who may approve its playbook.
  abbrev pub Authorized : Service → Type 0
  Authorized v =
      (id : String) (req : ApprovalRequest)
      → lookup id v.approvals ≡ some req
      → req.status ≡ "approved"
      → (by : String) × (req.decided_by ≡ some by)
        × (may fnmatch policy by "approve" (playbook_resource req.playbook_id) ≡ true)

  -- What being approved takes.
  abbrev Approved : ApprovalRequest → Type 0
  Approved req =
      req.status ≡ "approved"
      → (by : String) × (req.decided_by ≡ some by)
        × (may fnmatch policy by "approve" (playbook_resource req.playbook_id) ≡ true)

  same-Authorized : (v w : Service) → w.approvals ≡ v.approvals → Authorized v → Authorized w
  same-Authorized v w same h id req there = h id req (sym (ap (λ d. lookup id d) same) ∙ there)

  insert-Authorized :
      (j : String) (request : ApprovalRequest) (v w : Service)
      → w.approvals ≡ insert j request v.approvals
      → (request.status ≡ "approved"
          → (by : String) × (request.decided_by ≡ some by)
            × (may fnmatch policy by "approve" (playbook_resource request.playbook_id) ≡ true))
      → Authorized v
      → Authorized w
  insert-Authorized j request v w put new h id req there approved =
      elim (insert_cases j id request req v.approvals (sym (ap (λ d. lookup id d) put) ∙ there)) [
        | inl (_, same) ↦ subst Approved same new approved
        | inr before ↦ h id req before approved
      ]

  not_yet : {status : String} → status ≡ "approved" → status == "pending" ≡ true → ⊥
  not_yet {status} approved waits =
      ne ((==_iff "pending" "approved").1 (sym ((==_iff status "pending").0 waits) ∙ approved))

  expired_only : {status : String} → status ≡ "expired" → status ≡ "approved" → ⊥
  expired_only expired approved = ne ((==_iff "expired" "approved").1 (sym expired ∙ approved))

  approve_needed :
      {decision permission : String}
      → permission_of decision ≡ some permission
      → decision ≡ "approved"
      → permission ≡ "approve"
  unfolding permission_of
  approve_needed needed approved = grind (arith, ==_iff)

  change-Authorized :
      (r : Request) (v w : Service)
      → creates_pending r ≡ true
      → Change fnmatch policy r v w
      → Authorized v
      → Authorized w
  change-Authorized r v w ok (Change.nothing _ same _) h = same-Authorized v w same h
  change-Authorized r v w ok (Change.enters _ _ _ _ _ _ _ same _) h = same-Authorized v w same h
  change-Authorized r v w ok (Change.graduates _ _ _ _ _ _ _ _ same _) h =
      same-Authorized v w same h
  change-Authorized r v w ok (Change.demotes _ _ _ _ _ _ _ _ _ same _) h =
      same-Authorized v w same h
  change-Authorized r v w ok (Change.opens request eq put _ _) h =
      insert-Authorized request.id request v w put
        (λ says. absurd (not_yet says (subst (λ r. creates_pending r ≡ true) eq ok))) h
  change-Authorized r v w ok
        (Change.decides j decision permission by old _ there waits needs mayy _ put _ _) h =
      insert-Authorized j _ v w put
        (λ says. (
          by,
          refl,
          subst (λ p. may fnmatch policy by p (playbook_resource old.playbook_id) ≡ true)
              (approve_needed needs says) mayy,
        ))
        h
  change-Authorized r v w ok (Change.expires j by old _ there waits _ _ put _ _) h =
      insert-Authorized j _ v w put (λ says. absurd (expired_only refl says)) h
  change-Authorized r v w ok (Change.drafts _ _ _ _ _ _ _ _ same) h = same-Authorized v w same h
  change-Authorized r v w ok (Change.accepts _ _ _ _ _ _ _ _ _ _ same) h =
      same-Authorized v w same h
  change-Authorized r v w ok (Change.turns_down _ _ _ _ _ _ _ _ _ _ same) h =
      same-Authorized v w same h
  change-Authorized r v w ok (Change.clears_approvals _ none_left _ _) h =
      λ id req there. absurd (lookup-empty id req _ none_left there)
  change-Authorized r v w ok (Change.clears_proposals _ _ _ same) h = same-Authorized v w same h

  -- When every approval is still to be decided as it is created, every approval that stands as
  -- approved, after any requests, was approved by someone with the permission "approve" on its
  -- playbook.
  pub serve-Authorized :
      (rs : List (ℕ × Request)) (v : Service)
      → all (λ (x : ℕ × Request). creates_pending x.1) rs ≡ true
      → Authorized v
      → Authorized (serve fnmatch policy rs v)
  serve-Authorized = serve_rule fnmatch policy Authorized creates_pending change-Authorized
