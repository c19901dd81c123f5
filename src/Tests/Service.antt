-- ===== src/Tests/Service.antt =====
-- The governance service at concrete inputs: someone who may do everything, a request that she
-- approves, and a playbook that the author drafts and that she approves or has rejected.
use intelliops.Base.{
  false, map, inr, subst, inl, ℕ, Bool, true, String, Option, none, some, List, [], ◌∷◌, ◌≡◌, refl,
}
use intelliops.Base.Dict.{insert_cases, insert, lookup, lookup_or, lookup-empty}
use intelliops.Contracts.{
  is_auto, HitlMode, ApprovalRequest, ProposedPlaybook, ProposedPlaybookStatus,
}
use intelliops.Governance.Rbac.{Rule, RbacPolicy, check, check_roles, allows}
use intelliops.Governance.Proposals.{register, add, set_status, is_proposed}
use intelliops.Governance.Approvals.{create, decide, get}
use intelliops.Governance.Service.{
  playbook_resource, on_approve, finalize_proposal, on_propose, on_graduate, on_register, audited,
  on_decide, found, require, permission_of, Service, Request, Draft, Proposal, step,
}
use intelliops.Governance.Service.Steps.{Change, serve, step-Change}
use intelliops.Governance.Service.Decisions.{Decided, serve-Decided, Authorized, serve-Authorized}
use intelliops.Governance.Service.Automation.{IsVetted, serve-IsVetted}
use intelliops.Governance.Service.Review.{Reviewed, serve-Reviewed}
use intelliops.Governance.Service.Refusals.{refused-step}
use intelliops.Tests.Data.{playbook}

abbrev rule : String → Rule
rule action = record { action = some action; resource = some "*" }

abbrev policy : RbacPolicy
policy = record {
  roles = ("lead", rule "register" ∷ rule "graduate" ∷ rule "approve" ∷ rule "reject" ∷ []) ∷ [];
  actors = ("ann", "lead" ∷ []) ∷ [];
}

-- A pattern that matches everything.
abbrev matches : String → String → Bool
matches resource glob = true

abbrev request : String → Option String → ApprovalRequest
request status by = record {
  id = "appr-1";
  situation_id = "sit-abc";
  playbook_id = "pb-1";
  requested_by = "action-service";
  status = status;
  decided_by = by;
  preflight = none;
}

abbrev proposal : Proposal
proposal = record {
  situation_id = "sit-abc";
  signature = "abc";
  requested_by = "ann";
  playbook_suffix = "p1";
  proposal_suffix = "1";
}

abbrev draft : Draft
draft = record { playbook = playbook HitlMode.auto; rationale = none; cited_facts = [] }

abbrev fresh : Service
fresh = record { registry = []; approvals = []; proposals = []; decisions = []; audit = [] }

abbrev waiting : Service
waiting = record fresh { approvals = ("appr-1", request "pending" none) ∷ [] }

abbrev approved : Service
approved = record fresh { approvals = ("appr-1", request "approved" (some "ann")) ∷ [] }

step-Change_example :
    Change matches policy
      (Request.decide_approval "appr-1" "approved" "ann")
      waiting
      (step matches policy 7 (Request.decide_approval "appr-1" "approved" "ann") waiting).1
step-Change_example =
    step-Change matches policy 7 waiting (Request.decide_approval "appr-1" "approved" "ann")

-- It changes the approval.
approves :
    (step matches policy 7 (Request.decide_approval "appr-1" "approved" "ann") waiting).1.approvals
    ≡ approved.approvals
unfolding step on_decide audited found require get decide permission_of check check_roles lookup_or
    lookup allows insert
approves = refl

-- Another decision and an expiry come too late.
abbrev late : List (ℕ × Request)
late =
    (8, Request.decide_approval "appr-1" "rejected" "ann")
    ∷ (9, Request.expire_approval "appr-1" "action-service")
    ∷ []

serve-Decided_example :
    Decided matches policy "appr-1"
      (request "approved" (some "ann"))
      (serve matches policy late approved)
unfolding lookup
serve-Decided_example =
    serve-Decided matches policy "appr-1" (request "approved" (some "ann")) late approved refl
      (refl, refl)

-- Beside an approval that she approved, another is created, and she approves it too.
abbrev second : String → Option String → ApprovalRequest
second status by = record (request status by) { id = "appr-2" }

abbrev created_then_approved : List (ℕ × Request)
created_then_approved =
    (7, Request.create_approval (second "pending" none))
    ∷ (8, Request.decide_approval "appr-2" "approved" "ann")
    ∷ []

approved-Authorized : Authorized matches policy approved
unfolding lookup check check_roles lookup_or allows insert
approved-Authorized id req there says =
    elim (insert_cases "appr-1" id (request "approved" (some "ann")) req [] there) [
      | inl (_, same) ↦
          subst
            (λ (r : ApprovalRequest).
              (by : String) × (r.decided_by ≡ some by)
              × (check matches policy "approve" (playbook_resource r.playbook_id) by ≡ true))
            same ("ann", refl, refl)
      | inr gone ↦ absurd (lookup-empty id req [] refl gone)
    ]

both_approved :
    (serve matches policy created_then_approved approved).approvals
    ≡ ("appr-1", request "approved" (some "ann")) ∷ ("appr-2", second "approved" (some "ann")) ∷ []
unfolding serve step on_decide audited found require get decide create permission_of check
    check_roles lookup_or lookup allows insert
both_approved = refl

serve-Authorized_example :
    Authorized matches policy (serve matches policy created_then_approved approved)
serve-Authorized_example =
    serve-Authorized matches policy created_then_approved approved refl approved-Authorized

abbrev registered_then_graduated : List (ℕ × Request)
registered_then_graduated =
    (7, Request.register_playbook (playbook HitlMode.hitl) "ann")
    ∷ (8, Request.graduate_playbook "pb-1" "ann")
    ∷ (9, Request.propose_playbook proposal (some draft))
    ∷ (10, Request.approve_proposed "prop-1" "ann")
    ∷ []

-- The playbook is in the automatic mode in the end, and the draft, which was approved, is not.
graduated :
    let v = serve matches policy registered_then_graduated fresh in
    (map {B = String × Bool} (λ e. (e.0, is_auto e.1.hitl_mode)) v.registry
      ≡ ("pb-1", true) ∷ ("ai-abc-p1", false) ∷ [])
    × (map {B = String × Bool} (λ e. (e.0, is_proposed e.1.status)) v.proposals
        ≡ ("prop-1", false) ∷ [])
unfolding serve step on_register on_graduate on_propose finalize_proposal on_approve audited found
    require check check_roles lookup_or lookup allows insert register add set_status
graduated = (refl, refl)

serve-IsVetted_example :
    IsVetted matches policy (serve matches policy registered_then_graduated fresh)
serve-IsVetted_example = serve-IsVetted matches policy registered_then_graduated fresh (
  λ id pb there. absurd (lookup-empty id pb [] refl there),
  λ id p there. absurd (lookup-empty id p [] refl there),
)

abbrev rejected_proposal : ProposedPlaybook
rejected_proposal = record {
  id = "prop-1";
  playbook = playbook HitlMode.hitl;
  status = ProposedPlaybookStatus.rejected;
  proposed_by = "runbook-author";
  rationale = none;
  source_situation_id = none;
  decided_by = some "ann";
  ts = 9;
}

abbrev turned_down : Service
turned_down = record fresh { proposals = ("prop-1", rejected_proposal) ∷ [] }

abbrev approved_later : List (ℕ × Request)
approved_later = (10, Request.approve_proposed "prop-1" "ann") ∷ []

serve-Reviewed_example :
    Reviewed matches policy "prop-1" rejected_proposal
      (serve matches policy approved_later turned_down)
unfolding lookup
serve-Reviewed_example =
    serve-Reviewed matches policy "prop-1" rejected_proposal approved_later turned_down refl
      (refl, refl)

-- A second decision is refused.
refused-step_example :
    (step matches policy 9 (Request.decide_approval "appr-1" "rejected" "ann") approved).1
    ≡ approved
unfolding step lookup on_decide found require get permission_of check check_roles lookup_or allows
refused-step_example =
    refused-step matches policy 9 (Request.decide_approval "appr-1" "rejected" "ann") approved refl
