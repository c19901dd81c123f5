-- ===== src/Governance/Service.antt =====
-- services/governance/app.py: the requests that change what governance holds, over its in-memory
-- stores. A raised HTTPException is the reply `refused` with its code. What comes from outside (the
-- author's draft, the random ids, the time) is part of the request. One request is one step: the
-- handlers are synchronous and take no lock, so this is the service while it handles one request at
-- a time, not what two threads that run handlers at once may do between a check and a write.
pub mod Steps
pub mod Decisions
pub mod Automation
pub mod Review
pub mod Refusals
use intelliops.Base.{
  ℕ, Bool, true, false, not, String, ◌<>◌, ◌==◌, Option, none, some, List, [], ◌∷◌, ◌++◌, map, ◌≡◌,
  refl, if◌then◌else◌, ◌||◌,
}
use intelliops.Base.Dict.{lookup}
use intelliops.Contracts.{
  Playbook, HitlMode, is_auto, AuditRecord, ApprovalRequest, ProposedPlaybook,
  ProposedPlaybookStatus, proposed, approved, rejected, AuthorDecision, AuthorDecisionDisposition,
  AuthorDecisionOutcome, RemediationStep,
}
use intelliops.Governance.Rbac.{RbacPolicy, check}
use intelliops.Governance.Approvals.{Store, create, get, decide}
use intelliops.Governance.Proposals
use intelliops.Governance.Proposals.{
  Registry, register, Proposed, is_proposed, set_status, update_disposition,
}

pub record Service : Type 0 where
  pub registry : Registry
  pub approvals : Store
  pub proposals : Proposed
  pub decisions : List AuthorDecision
  -- the latest row first
  pub audit : List AuditRecord

pub data Reply : Type 0 where
  acknowledged : Reply
  a_playbook : Playbook → Reply
  an_approval : ApprovalRequest → Reply
  a_proposal : ProposedPlaybook → Reply
  refused : ℕ → Reply

-- What the author drafted.
pub record Draft : Type 0 where
  pub playbook : Playbook
  pub rationale : Option String
  pub cited_facts : List String

-- A request to draft, with the random parts of the two ids.
pub record Proposal : Type 0 where
  pub situation_id : String
  pub signature : String
  pub requested_by : String
  pub playbook_suffix : String
  pub proposal_suffix : String

pub data Request : Type 0 where
  write_audit : AuditRecord → Request
  register_playbook : Playbook → (registered_by : String) → Request
  create_approval : ApprovalRequest → Request
  decide_approval : (approval_id decision decided_by : String) → Request
  expire_approval : (approval_id actor : String) → Request
  reset_approvals : Request
  graduate_playbook : (playbook_id decided_by : String) → Request
  demote_playbook : (playbook_id decided_by : String) → Request
  propose_playbook : Proposal → Option Draft → Request
  approve_proposed : (proposal_id decided_by : String) → Request
  reject_proposed : (proposal_id decided_by : String) → Request
  reset_proposed : Request

abbrev pub Handler : Type 0
Handler = Service → Reply × Service

-- `if not b: raise HTTPException(code)`
unfoldable pub require : Bool → ℕ → Handler → Handler
require b code rest v = if b then rest v else (refused code, v)

-- `if x is None: raise HTTPException(code)`
unfoldable pub found : {A : Type 0} → Option A → ℕ → (A → Handler) → Handler
found none code rest v = (refused code, v)
found (some a) code rest v = rest a v

-- A handler behind a guard, or behind something that must be there.
pub require_rule {ℓ} :
    (P : Reply × Service → Type ℓ) (b : Bool) (code : ℕ) (rest : Handler) (v : Service)
    → P (refused code, v)
    → (b ≡ true → P (rest v))
    → P (require b code rest v)
unfolding require
require_rule P true code rest v lost got = got refl
require_rule P false code rest v lost got = lost

pub found_rule {ℓ} :
    {A : Type 0} (P : Reply × Service → Type ℓ) (x : Option A) (code : ℕ) (rest : A → Handler)
    (v : Service)
    → P (refused code, v)
    → ((a : A) → x ≡ some a → P (rest a v))
    → P (found x code rest v)
unfolding found
found_rule P none code rest v lost got = lost
found_rule P (some a) code rest v lost got = got a refl

-- The permission that a human decision needs: `_HUMAN_DECISIONS`.
unfoldable pub permission_of : String → Option String
permission_of decision =
    if decision == "approved"
    then some "approve"
    else if decision == "rejected"
    then some "reject"
    else none

abbrev pub playbook_resource : String → String
playbook_resource id = "playbook:" <> id

module _ (now : ℕ) where
  -- `_audit`, and the writes to the sink that spell the row out
  unfoldable pub audited : (actor action resource correlation_id : String) → Service → Service
  audited actor action resource correlation_id v = record v {
    audit =
        record {
          actor = actor;
          action = action;
          resource = resource;
          decision = "allow";
          ts = now;
          correlation_id = correlation_id;
        }
        ∷ v.audit;
  }

module _ (fnmatch : String → String → Bool) (policy : RbacPolicy) where
  -- `app.state.rbac.check`
  abbrev pub may : (actor action resource : String) → Bool
  may actor action resource = check fnmatch policy action resource actor

  module _ (now : ℕ) where
    unfoldable pub on_register : Playbook → String → Handler
    on_register playbook by =
        let resource = playbook_resource playbook.id in
        require (may by "register" resource) 403 (
          require (not (is_auto playbook.hitl_mode) || may by "graduate" resource) 403 (λ v. (
            acknowledged,
            audited now by "register" resource resource
                (record v { registry = register playbook v.registry }),
          )))

    unfoldable pub on_decide : (approval_id decision by : String) → Handler
    on_decide approval_id decision by v =
        found (get approval_id v.approvals) 404
          (λ req. found (permission_of decision) 422 (λ permission.
            require (may by permission (playbook_resource req.playbook_id)) 403 (
              require (req.status == "pending") 409 (λ v.
                let (answer, approvals) = decide approval_id decision by v.approvals in
                (
                  elim answer [ none ↦ acknowledged | some updated ↦ an_approval updated ],
                  audited now by permission (playbook_resource req.playbook_id) req.situation_id
                      (record v { approvals = approvals }),
                )))))
          v

    unfoldable pub on_expire : (approval_id actor : String) → Handler
    on_expire approval_id actor v =
        found (get approval_id v.approvals) 404
          (λ req. require (actor == req.requested_by) 403 (λ v.
            if req.status == "pending"
            then (let (answer, approvals) = decide approval_id "expired" actor v.approvals in
                (
                  elim answer [ none ↦ acknowledged | some updated ↦ an_approval updated ],
                  audited now actor "expire" (playbook_resource req.playbook_id) req.situation_id
                      (record v { approvals = approvals }),
                ))
            else (an_approval req, v)))
          v

    -- `graduate_playbook` and `demote_playbook` after their checks
    abbrev pub set_mode : HitlMode → (playbook_id by action : String) → Playbook → Handler
    set_mode mode playbook_id by action pb v =
        let resource = playbook_resource playbook_id in
        let updated = record pb { hitl_mode = mode } in
        (
          a_playbook updated,
          audited now by action resource resource
              (record v { registry = register updated v.registry }),
        )

    unfoldable pub on_graduate : (playbook_id by : String) → Handler
    on_graduate playbook_id by v =
        found (lookup playbook_id v.registry) 404
          (λ pb.
            require (may by "graduate" (playbook_resource playbook_id)) 403
              (set_mode HitlMode.auto playbook_id by "graduate" pb))
          v

    unfoldable pub on_demote : (playbook_id by : String) → Handler
    on_demote playbook_id by v =
        found (lookup playbook_id v.registry) 404
          (λ pb. require (may by "graduate" (playbook_resource playbook_id)) 403 (λ v.
            if is_auto pb.hitl_mode
            then set_mode HitlMode.hitl playbook_id by "demote" pb v
            else (a_playbook pb, v)))
          v

    -- `_finalize_proposal`
    abbrev pub normalized : Proposal → Playbook → Playbook
    normalized p playbook = record playbook {
      hitl_mode = HitlMode.hitl;
      id = "ai-" <> p.signature <> "-" <> p.playbook_suffix;
    }

    abbrev pub proposal_of : Proposal → Draft → ProposedPlaybook
    proposal_of p draft = record {
      id = "prop-" <> p.proposal_suffix;
      playbook = normalized p draft.playbook;
      status = proposed;
      proposed_by = "runbook-author";
      rationale = draft.rationale;
      source_situation_id = some p.situation_id;
      decided_by = none;
      ts = now;
    }

    abbrev pub decision_of : Proposal → Draft → AuthorDecision
    decision_of p draft = record {
      signature = p.signature;
      proposal_id = "prop-" <> p.proposal_suffix;
      playbook_id = (normalized p draft.playbook).id;
      actions = map (λ (s : RemediationStep). s.action) draft.playbook.steps;
      cited_facts = draft.cited_facts;
      note = none;
      disposition = AuthorDecisionDisposition.pending;
      outcome = AuthorDecisionOutcome.unknown;
      decided_by = none;
      ts = now;
    }

    unfoldable pub finalize_proposal : Proposal → Draft → Handler
    finalize_proposal p draft v =
        let proposal = proposal_of p draft in
        let stored =
          audited now p.requested_by "propose" ("proposal:" <> proposal.id) p.situation_id
            (record v { proposals = Proposals.add proposal v.proposals }) in
        (
          a_proposal proposal,
          record stored { decisions = stored.decisions ++ (decision_of p draft ∷ []) },
        )

    unfoldable pub on_propose : Proposal → Option Draft → Handler
    on_propose p drafted =
        require (may p.requested_by "approve" "playbook:*") 403
          (found drafted 422 (finalize_proposal p))

    -- What a review does to the proposal, to the trail and to the author's memory.
    abbrev pub reviewed :
        ProposedPlaybookStatus
        → AuthorDecisionDisposition
        → (proposal_id by action : String) → Service
        → Service
    reviewed status disposition proposal_id by action v =
        let stored =
          audited now by action ("proposal:" <> proposal_id) proposal_id
            (record v { proposals = (set_status proposal_id status by v.proposals).1 }) in
        record stored { decisions = update_disposition proposal_id disposition by stored.decisions }

    unfoldable pub on_approve : (proposal_id by : String) → Handler
    on_approve proposal_id by v =
        found (lookup proposal_id v.proposals) 404
          (λ p. require (may by "approve" (playbook_resource p.playbook.id)) 403 (
            require (is_proposed p.status) 409 (λ v. (
              a_proposal (record p { status = approved; decided_by = some by }),
              reviewed approved AuthorDecisionDisposition.accepted proposal_id by "approve-proposal"
                  (record v { registry = register p.playbook v.registry }),
            ))))
          v

    unfoldable pub on_reject : (proposal_id by : String) → Handler
    on_reject proposal_id by v =
        found (lookup proposal_id v.proposals) 404
          (λ p. require (may by "reject" (playbook_resource p.playbook.id)) 403 (
            require (is_proposed p.status) 409 (λ v. (
              a_proposal (record p { status = rejected; decided_by = some by }),
              reviewed rejected AuthorDecisionDisposition.rejected proposal_id by "reject-proposal"
                  v,
            ))))
          v

    abbrev pub on_write_audit : AuditRecord → Handler
    on_write_audit row v = (acknowledged, record v { audit = row ∷ v.audit })

    abbrev pub on_create : ApprovalRequest → Handler
    on_create request v =
        let (answer, approvals) = create request v.approvals in
        (an_approval answer, record v { approvals = approvals })

    abbrev pub on_reset_approvals : Handler
    on_reset_approvals v = (acknowledged, record v { approvals = [] })

    abbrev pub on_reset_proposed : Handler
    on_reset_proposed v = (acknowledged, record v { proposals = [] })

    -- One request.
    unfoldable pub step : Request → Handler
    step (write_audit row) = on_write_audit row
    step (register_playbook playbook by) = on_register playbook by
    step (create_approval request) = on_create request
    step (decide_approval id decision by) = on_decide id decision by
    step (expire_approval id actor) = on_expire id actor
    step reset_approvals = on_reset_approvals
    step (graduate_playbook id by) = on_graduate id by
    step (demote_playbook id by) = on_demote id by
    step (propose_playbook p drafted) = on_propose p drafted
    step (approve_proposed id by) = on_approve id by
    step (reject_proposed id by) = on_reject id by
    step reset_proposed = on_reset_proposed
