-- ===== src/Governance/Service/Refusals.antt =====
-- services/governance/app.py: a refused request, whichever it is, changes nothing.
use intelliops.Base.{ℕ, Bool, true, false, String, ◌==◌, Option, ◌≡◌, refl, arith, if_rule}
use intelliops.Contracts.{Playbook, is_auto}
use intelliops.Governance.Approvals.{create, decide, get}
use intelliops.Governance.Rbac.{RbacPolicy}
use intelliops.Governance.Service.{
  Service, Reply, refused, Request, Draft, Proposal, require_rule, found_rule, step, on_register,
  on_decide, on_expire, on_graduate, on_demote, on_propose, on_approve, on_reject,
  finalize_proposal,
}

abbrev pub is_refused : Reply → Bool
is_refused (refused _) = true
is_refused _ = false

module _ (v : Service) where
  unfoldable Kept : Reply × Service → Type 0
  Kept x = is_refused x.0 ≡ true → x.1 ≡ v

  same : (reply : Reply) → Kept (reply, v)
  unfolding Kept
  same _ _ = refl

  done : (reply : Reply) (w : Service) → is_refused reply ≡ false → Kept (reply, w)
  unfolding Kept
  done reply w accepted is = ground arith

  module _ (fnmatch : String → String → Bool) (policy : RbacPolicy) (now : ℕ) where
    register-Kept : (pb : Playbook) (by : String) → Kept (on_register fnmatch policy now pb by v)
    unfolding on_register
    register-Kept pb by =
        require_rule Kept _ 403 _ v (same _)
          (λ _. require_rule Kept _ 403 _ v (same _) (λ _. done _ _ refl))

    decide-Kept : (id decision by : String) → Kept (on_decide fnmatch policy now id decision by v)
    unfolding on_decide decide get
    decide-Kept id decision by = found_rule Kept _ 404 _ v (same _) (λ req there.
        found_rule Kept _ 422 _ v (same _) (λ _ _.
          require_rule Kept _ 403 _ v (same _)
            (λ _. require_rule Kept _ 409 _ v (same _) (λ _. done _ _ (ground arith)))))

    expire-Kept : (id actor : String) → Kept (on_expire fnmatch policy now id actor v)
    unfolding on_expire decide get
    expire-Kept id actor = found_rule Kept _ 404 _ v (same _) (λ req there.
        require_rule Kept _ 403 _ v (same _) (λ _.
          if_rule Kept (req.status == "pending") _ _ (λ _. done _ _ (ground arith)) (λ _. same _)))

    graduate-Kept : (id by : String) → Kept (on_graduate fnmatch policy now id by v)
    unfolding on_graduate
    graduate-Kept id by =
        found_rule Kept _ 404 _ v (same _)
          (λ pb _. require_rule Kept _ 403 _ v (same _) (λ _. done _ _ refl))

    demote-Kept : (id by : String) → Kept (on_demote fnmatch policy now id by v)
    unfolding on_demote
    demote-Kept id by = found_rule Kept _ 404 _ v (same _) (λ pb _.
        require_rule Kept _ 403 _ v (same _)
          (λ _. if_rule Kept (is_auto pb.hitl_mode) _ _ (λ _. done _ _ refl) (λ _. same _)))

    propose-Kept :
        (p : Proposal) (drafted : Option Draft) → Kept (on_propose fnmatch policy now p drafted v)
    unfolding on_propose finalize_proposal
    propose-Kept p drafted =
        require_rule Kept _ 403 _ v (same _)
          (λ _. found_rule Kept drafted 422 _ v (same _) (λ draft _. done _ _ refl))

    approve-Kept : (id by : String) → Kept (on_approve fnmatch policy now id by v)
    unfolding on_approve
    approve-Kept id by = found_rule Kept _ 404 _ v (same _) (λ p _.
        require_rule Kept _ 403 _ v (same _)
          (λ _. require_rule Kept _ 409 _ v (same _) (λ _. done _ _ refl)))

    reject-Kept : (id by : String) → Kept (on_reject fnmatch policy now id by v)
    unfolding on_reject
    reject-Kept id by = found_rule Kept _ 404 _ v (same _) (λ p _.
        require_rule Kept _ 403 _ v (same _)
          (λ _. require_rule Kept _ 409 _ v (same _) (λ _. done _ _ refl)))

-- A request that is refused, with any code, leaves everything as it was: playbooks, approvals,
-- proposals, the author's memory and the audit trail.
pub refused-step :
    (fnmatch : String → String → Bool) (policy : RbacPolicy) (now : ℕ) (r : Request) (v : Service)
    → is_refused (step fnmatch policy now r v).0 ≡ true
    → (step fnmatch policy now r v).1 ≡ v
unfolding step create Kept
refused-step f policy now (Request.write_audit row) v h = ground arith
refused-step f policy now (Request.register_playbook pb by) v h =
    register-Kept v f policy now pb by h
refused-step f policy now (Request.create_approval request) v h = ground arith
refused-step f policy now (Request.decide_approval id decision by) v h =
    decide-Kept v f policy now id decision by h
refused-step f policy now (Request.expire_approval id actor) v h =
    expire-Kept v f policy now id actor h
refused-step f policy now Request.reset_approvals v h = ground arith
refused-step f policy now (Request.graduate_playbook id by) v h =
    graduate-Kept v f policy now id by h
refused-step f policy now (Request.demote_playbook id by) v h = demote-Kept v f policy now id by h
refused-step f policy now (Request.propose_playbook p drafted) v h =
    propose-Kept v f policy now p drafted h
refused-step f policy now (Request.approve_proposed id by) v h = approve-Kept v f policy now id by h
refused-step f policy now (Request.reject_proposed id by) v h = reject-Kept v f policy now id by h
refused-step f policy now Request.reset_proposed v h = ground arith
