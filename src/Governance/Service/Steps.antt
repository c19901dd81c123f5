-- ===== src/Governance/Service/Steps.antt =====
-- What a request may do to what governance holds, as a relation: each change with what allowed it.
use intelliops.Base.{
  ℕ, Bool, true, false, not, ◌||◌, String, ◌==◌, ==_iff, Option, some, List, [], ◌∷◌, ◌≡◌, refl,
  arith, if_rule, ap, all,
}
use intelliops.Base.Dict.{lookup, insert}
use intelliops.Contracts.{
  Playbook, HitlMode, is_auto, AuditRecord, ApprovalRequest, ProposedPlaybook, proposed, approved,
  rejected,
}
use intelliops.Governance.Rbac.{RbacPolicy}
use intelliops.Governance.Approvals.{create, get, decide}
use intelliops.Governance.Proposals
use intelliops.Governance.Proposals.{register, is_proposed, set_status}
use intelliops.Governance.Service.{
  Service, Reply, Request, Draft, Proposal, may, require_rule, found_rule, permission_of,
  playbook_resource, proposal_of, step, on_register, on_decide, on_expire, on_graduate, on_demote,
  on_propose, on_approve, on_reject, finalize_proposal, audited,
}

-- A request as it was decided or expired.
abbrev pub marked : (status by : String) → ApprovalRequest → ApprovalRequest
marked status by req = record req { status = status; decided_by = some by }

-- One audit row was written, with this actor and this action.
abbrev pub Signed : (by action : String) → List AuditRecord → List AuditRecord → Type 0
Signed by action rows rows' =
    (row : AuditRecord) × (row.actor ≡ by) × (row.action ≡ action) × (rows' ≡ row ∷ rows)

-- What `not a or b` lets through.
only_then : (a b : Bool) → not a || b ≡ true → a ≡ true → b ≡ true
only_then true true _ _ = refl
only_then true false ok _ = ok
only_then false b _ absurd = ground arith

module _ (fnmatch : String → String → Bool) (policy : RbacPolicy) where
  abbrev pub May : (actor action resource : String) → Type 0
  May actor action resource = may fnmatch policy actor action resource ≡ true

  -- A change of the playbooks, of the approvals, or of the proposals, with what allowed it. The
  -- parts that a case does not name stay as they are.
  pub data Change (r : Request) (v w : Service) : Type 0 where
    nothing :
        w.registry ≡ v.registry
        → w.approvals ≡ v.approvals
        → w.proposals ≡ v.proposals
        → Change r v w
    enters :
        (pb : Playbook) (by : String)
        → r ≡ Request.register_playbook pb by
        → May by "register" (playbook_resource pb.id)
        → (is_auto pb.hitl_mode ≡ true → May by "graduate" (playbook_resource pb.id))
        → Signed by "register" v.audit w.audit
        → w.registry ≡ register pb v.registry
        → w.approvals ≡ v.approvals
        → w.proposals ≡ v.proposals
        → Change r v w
    graduates :
        (id by : String) (pb : Playbook)
        → r ≡ Request.graduate_playbook id by
        → lookup id v.registry ≡ some pb
        → May by "graduate" (playbook_resource id)
        → Signed by "graduate" v.audit w.audit
        → w.registry ≡ register (record pb { hitl_mode = HitlMode.auto }) v.registry
        → w.approvals ≡ v.approvals
        → w.proposals ≡ v.proposals
        → Change r v w
    demotes :
        (id by : String) (pb : Playbook)
        → r ≡ Request.demote_playbook id by
        → lookup id v.registry ≡ some pb
        → is_auto pb.hitl_mode ≡ true
        → May by "graduate" (playbook_resource id)
        → Signed by "demote" v.audit w.audit
        → w.registry ≡ register (record pb { hitl_mode = HitlMode.hitl }) v.registry
        → w.approvals ≡ v.approvals
        → w.proposals ≡ v.proposals
        → Change r v w
    opens :
        (request : ApprovalRequest)
        → r ≡ Request.create_approval request
        → w.approvals ≡ insert request.id request v.approvals
        → w.registry ≡ v.registry
        → w.proposals ≡ v.proposals
        → Change r v w
    decides :
        (id decision permission by : String) (req : ApprovalRequest)
        → r ≡ Request.decide_approval id decision by
        → lookup id v.approvals ≡ some req
        → req.status ≡ "pending"
        → permission_of decision ≡ some permission
        → May by permission (playbook_resource req.playbook_id)
        → Signed by permission v.audit w.audit
        → w.approvals ≡ insert id (marked decision by req) v.approvals
        → w.registry ≡ v.registry
        → w.proposals ≡ v.proposals
        → Change r v w
    expires :
        (id by : String) (req : ApprovalRequest)
        → r ≡ Request.expire_approval id by
        → lookup id v.approvals ≡ some req
        → req.status ≡ "pending"
        → by ≡ req.requested_by
        → Signed by "expire" v.audit w.audit
        → w.approvals ≡ insert id (marked "expired" by req) v.approvals
        → w.registry ≡ v.registry
        → w.proposals ≡ v.proposals
        → Change r v w
    drafts :
        (now : ℕ) (p : Proposal) (draft : Draft)
        → r ≡ Request.propose_playbook p (some draft)
        → May p.requested_by "approve" "playbook:*"
        → Signed p.requested_by "propose" v.audit w.audit
        → w.proposals ≡ Proposals.add (proposal_of fnmatch policy now p draft) v.proposals
        → w.registry ≡ v.registry
        → w.approvals ≡ v.approvals
        → Change r v w
    accepts :
        (id by : String) (p : ProposedPlaybook)
        → r ≡ Request.approve_proposed id by
        → lookup id v.proposals ≡ some p
        → p.status ≡ proposed
        → May by "approve" (playbook_resource p.playbook.id)
        → Signed by "approve-proposal" v.audit w.audit
        → w.proposals ≡ insert id (record p { status = approved; decided_by = some by }) v.proposals
        → w.registry ≡ register p.playbook v.registry
        → w.approvals ≡ v.approvals
        → Change r v w
    turns_down :
        (id by : String) (p : ProposedPlaybook)
        → r ≡ Request.reject_proposed id by
        → lookup id v.proposals ≡ some p
        → p.status ≡ proposed
        → May by "reject" (playbook_resource p.playbook.id)
        → Signed by "reject-proposal" v.audit w.audit
        → w.proposals ≡ insert id (record p { status = rejected; decided_by = some by }) v.proposals
        → w.registry ≡ v.registry
        → w.approvals ≡ v.approvals
        → Change r v w
    clears_approvals :
        r ≡ Request.reset_approvals
        → w.approvals ≡ []
        → w.registry ≡ v.registry
        → w.proposals ≡ v.proposals
        → Change r v w
    clears_proposals :
        r ≡ Request.reset_proposed
        → w.proposals ≡ []
        → w.registry ≡ v.registry
        → w.approvals ≡ v.approvals
        → Change r v w

  module _ (now : ℕ) (v : Service) where
    unfoldable Changes : Request → Reply × Service → Type 0
    Changes r x = Change r v x.1

    made : {r : Request} (reply : Reply) (w : Service) → Change r v w → Changes r (reply, w)
    unfolding Changes
    made _ _ change = change

    idle : (r : Request) (reply : Reply) → Changes r (reply, v)
    unfolding Changes
    idle _ _ = nothing refl refl refl

    register-Change :
        (pb : Playbook) (by : String)
        → Changes (Request.register_playbook pb by) (on_register fnmatch policy now pb by v)
    unfolding on_register audited
    register-Change pb by =
        require_rule (Changes (Request.register_playbook pb by)) _ 403 _ v (idle _ _) (λ ok.
          require_rule (Changes (Request.register_playbook pb by)) _ 403 _ v (idle _ _) (λ ok'.
            made _ _
              (enters pb by refl ok (only_then _ _ ok') (_, refl, refl, refl) refl refl refl)))

    decide-Change :
        (id decision by : String)
        → Changes
            (Request.decide_approval id decision by)
            (on_decide fnmatch policy now id decision by v)
    unfolding on_decide audited decide get
    decide-Change id decision by =
        found_rule (Changes (Request.decide_approval id decision by)) _ 404 _ v (idle _ _)
          (λ req there.
            found_rule (Changes (Request.decide_approval id decision by)) _ 422 _ v (idle _ _)
              (λ permission needed.
                require_rule (Changes (Request.decide_approval id decision by)) _ 403 _ v (idle _ _)
                  (λ ok.
                    require_rule (Changes (Request.decide_approval id decision by)) _ 409 _ v
                      (idle _ _)
                      (λ waiting. made _ _ (
                        decides id decision permission by req refl there
                          ((==_iff req.status "pending").0 waiting) needed ok (_, refl, refl, refl)
                          (ground arith) refl refl)))))

    expire-Change :
        (id actor : String)
        → Changes (Request.expire_approval id actor) (on_expire fnmatch policy now id actor v)
    unfolding on_expire audited decide get
    expire-Change id actor =
        found_rule (Changes (Request.expire_approval id actor)) _ 404 _ v (idle _ _) (λ req there.
          require_rule (Changes (Request.expire_approval id actor)) _ 403 _ v (idle _ _) (λ own.
            if_rule (Changes (Request.expire_approval id actor)) (req.status == "pending") _ _
              (λ waiting. made _ _ (
                expires id actor req refl there ((==_iff req.status "pending").0 waiting)
                  ((==_iff actor req.requested_by).0 own) (_, refl, refl, refl) (ground arith) refl
                  refl))
              (λ _. (idle _ _))))

    graduate-Change :
        (id by : String)
        → Changes (Request.graduate_playbook id by) (on_graduate fnmatch policy now id by v)
    unfolding on_graduate audited
    graduate-Change id by =
        found_rule (Changes (Request.graduate_playbook id by)) _ 404 _ v (idle _ _) (λ pb there.
          require_rule (Changes (Request.graduate_playbook id by)) _ 403 _ v (idle _ _) (λ ok.
            made _ _ (graduates id by pb refl there ok (_, refl, refl, refl) refl refl refl)))

    demote-Change :
        (id by : String)
        → Changes (Request.demote_playbook id by) (on_demote fnmatch policy now id by v)
    unfolding on_demote audited
    demote-Change id by =
        found_rule (Changes (Request.demote_playbook id by)) _ 404 _ v (idle _ _) (λ pb there.
          require_rule (Changes (Request.demote_playbook id by)) _ 403 _ v (idle _ _) (λ ok.
            if_rule (Changes (Request.demote_playbook id by)) (is_auto pb.hitl_mode) _ _
              (λ auto.
                made _ _ (demotes id by pb refl there auto ok (_, refl, refl, refl) refl refl refl))
              (λ _. (idle _ _))))

    propose-Change :
        (p : Proposal) (drafted : Option Draft)
        → Changes (Request.propose_playbook p drafted) (on_propose fnmatch policy now p drafted v)
    unfolding on_propose finalize_proposal audited
    propose-Change p drafted =
        require_rule (Changes (Request.propose_playbook p drafted)) _ 403 _ v (idle _ _) (λ ok.
          found_rule (Changes (Request.propose_playbook p drafted)) drafted 422 _ v (idle _ _)
            (λ draft here. made _ _ (
              drafts now p draft (ap (Request.propose_playbook p) here) ok (_, refl, refl, refl)
                refl refl refl)))

    approve-Change :
        (id by : String)
        → Changes (Request.approve_proposed id by) (on_approve fnmatch policy now id by v)
    unfolding on_approve audited set_status
    approve-Change id by =
        found_rule (Changes (Request.approve_proposed id by)) _ 404 _ v (idle _ _) (λ p there.
          require_rule (Changes (Request.approve_proposed id by)) _ 403 _ v (idle _ _) (λ ok.
            require_rule (Changes (Request.approve_proposed id by)) _ 409 _ v (idle _ _) (λ waiting.
              made _ _ (
                accepts id by p refl there (ground arith) ok (_, refl, refl, refl) (ground arith)
                  refl refl))))

    reject-Change :
        (id by : String)
        → Changes (Request.reject_proposed id by) (on_reject fnmatch policy now id by v)
    unfolding on_reject audited set_status
    reject-Change id by =
        found_rule (Changes (Request.reject_proposed id by)) _ 404 _ v (idle _ _) (λ p there.
          require_rule (Changes (Request.reject_proposed id by)) _ 403 _ v (idle _ _) (λ ok.
            require_rule (Changes (Request.reject_proposed id by)) _ 409 _ v (idle _ _) (λ waiting.
              made _ _ (
                turns_down id by p refl there (ground arith) ok (_, refl, refl, refl) (ground arith)
                  refl refl))))

    -- Every request makes one of the changes that the relation lists, with what allowed it, or
    -- none: playbooks, approvals and proposals change only in the way the request asks for, under
    -- the id it names, and by the actor it names, who has the permission for it (an expiry by the
    -- requester, a new approval request and the two resets by anyone), and every change that needs
    -- a permission, and an expiry, writes one audit row with that actor and the action.
    pub step-Change : (r : Request) → Change r v (step fnmatch policy now r v).1
    unfolding step create Changes
    step-Change (Request.write_audit row) = nothing refl refl refl
    step-Change (Request.register_playbook pb by) = register-Change pb by
    step-Change (Request.create_approval request) = opens request refl refl refl refl
    step-Change (Request.decide_approval id decision by) = decide-Change id decision by
    step-Change (Request.expire_approval id actor) = expire-Change id actor
    step-Change Request.reset_approvals = clears_approvals refl refl refl refl
    step-Change (Request.graduate_playbook id by) = graduate-Change id by
    step-Change (Request.demote_playbook id by) = demote-Change id by
    step-Change (Request.propose_playbook p drafted) = propose-Change p drafted
    step-Change (Request.approve_proposed id by) = approve-Change id by
    step-Change (Request.reject_proposed id by) = reject-Change id by
    step-Change Request.reset_proposed = clears_proposals refl refl refl refl

  -- One request after another, each with its time.
  unfoldable pub serve : List (ℕ × Request) → Service → Service
  serve [] v = v
  serve ((now, r) ∷ rs) v = serve rs (step fnmatch policy now r v).1

  -- What every change of a request that passes `ok` keeps, such requests keep.
  pub serve_rule {ℓ} :
      (P : Service → Type ℓ) (ok : Request → Bool)
      → ((r : Request) (v w : Service) → ok r ≡ true → Change r v w → P v → P w)
      → (rs : List (ℕ × Request)) (v : Service) → all (λ (x : ℕ × Request). ok x.1) rs ≡ true
      → P v
      → P (serve rs v)
  unfolding serve
  serve_rule P ok kept [] v h p = p
  serve_rule P ok kept ((now, r) ∷ rs) v h p =
      serve_rule P ok kept rs _ (grind arith) (kept r v _ (grind arith) (step-Change now v r) p)
