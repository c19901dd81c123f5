-- ===== src/Governance/Service/Review.antt =====
-- services/governance/app.py: the proposed playbooks, as any sequence of requests leaves them.
use intelliops.Base.{
  ℕ, List, all, Bool, true, false, not, String, ◌<>◌, ◌==◌, ==_iff, some, ◌≡◌, ap, subst, arith,
  ◌∙◌,
}
use intelliops.Base.Dict.{lookup, insert_keeps, insert}
use intelliops.Contracts.{ProposedPlaybook, proposed}
use intelliops.Governance.Proposals.{is_proposed, add}
use intelliops.Governance.Rbac.{RbacPolicy}
use intelliops.Governance.Service.{Service, Request}
use intelliops.Governance.Service.Steps.{Change, serve, serve_rule}

-- Whether the request leaves in place what is proposed under the id.
abbrev pub keeps_proposal : String → Request → Bool
keeps_proposal id (Request.propose_playbook p _) = not (("prop-" <> p.proposal_suffix) == id)
keeps_proposal id Request.reset_proposed = false
keeps_proposal _ _ = true

module _ (fnmatch : String → String → Bool) (policy : RbacPolicy) where
  -- The proposal is there, and approved or rejected.
  abbrev pub Reviewed : String → ProposedPlaybook → Service → Type 0
  Reviewed id p v = (lookup id v.proposals ≡ some p) × (is_proposed p.status ≡ false)

  same-Reviewed :
      (id : String) (p : ProposedPlaybook) (v w : Service)
      → w.proposals ≡ v.proposals
      → Reviewed id p v
      → Reviewed id p w
  same-Reviewed id p v w same (there, done) = (ap (λ d. lookup id d) same ∙ there, done)

  insert-Reviewed :
      (id j : String) (p new : ProposedPlaybook) (v w : Service)
      → (j ≡ id → ⊥)
      → w.proposals ≡ insert j new v.proposals
      → Reviewed id p v
      → Reviewed id p w
  insert-Reviewed id j p new v w apart put (there, done) =
      (ap (λ d. lookup id d) put ∙ insert_keeps j id new p v.proposals apart there, done)

  -- A proposal that is reviewed is none that still waits.
  waiting_apart :
      (id j : String) (p q : ProposedPlaybook) (v : Service)
      → lookup j v.proposals ≡ some q
      → q.status ≡ proposed
      → Reviewed id p v
      → j ≡ id
      → ⊥
  waiting_apart id j p q v there waits (here, done) same = grind arith

  clash : false ≡ true → ⊥
  clash h = ground arith

  not_self : {s t : String} → s ≡ t → not (s == t) ≡ true → false ≡ true
  not_self {s} {t} same apart = grind (arith, ==_iff s t)

  change-Reviewed :
      (id : String) (p : ProposedPlaybook) (r : Request) (v w : Service)
      → keeps_proposal id r ≡ true
      → Change fnmatch policy r v w
      → Reviewed id p v
      → Reviewed id p w
  unfolding add
  change-Reviewed id p r v w ok (Change.nothing _ _ same) h = same-Reviewed id p v w same h
  change-Reviewed id p r v w ok (Change.enters _ _ _ _ _ _ _ _ same) h =
      same-Reviewed id p v w same h
  change-Reviewed id p r v w ok (Change.graduates _ _ _ _ _ _ _ _ _ same) h =
      same-Reviewed id p v w same h
  change-Reviewed id p r v w ok (Change.demotes _ _ _ _ _ _ _ _ _ _ same) h =
      same-Reviewed id p v w same h
  change-Reviewed id p r v w ok (Change.opens _ _ _ _ same) h = same-Reviewed id p v w same h
  change-Reviewed id p r v w ok (Change.decides _ _ _ _ _ _ _ _ _ _ _ _ _ same) h =
      same-Reviewed id p v w same h
  change-Reviewed id p r v w ok (Change.expires _ _ _ _ _ _ _ _ _ _ same) h =
      same-Reviewed id p v w same h
  change-Reviewed id p r v w ok (Change.drafts now q draft eq _ _ put _ _) h =
      insert-Reviewed id _ p _ v w
        (λ same. clash (not_self same (subst (λ r. keeps_proposal id r ≡ true) eq ok))) put h
  change-Reviewed id p r v w ok (Change.accepts j by q _ there waits _ _ put _ _) h =
      insert-Reviewed id j p _ v w (waiting_apart id j p q v there waits h) put h
  change-Reviewed id p r v w ok (Change.turns_down j by q _ there waits _ _ put _ _) h =
      insert-Reviewed id j p _ v w (waiting_apart id j p q v there waits h) put h
  change-Reviewed id p r v w ok (Change.clears_approvals _ _ _ same) h =
      same-Reviewed id p v w same h
  change-Reviewed id p r v w ok (Change.clears_proposals eq _ _ _) h =
      absurd (clash (subst (λ r. keeps_proposal id r ≡ true) eq ok))

  -- A proposal that is approved or rejected stays as it is through any requests but a new proposal
  -- under its id and the reset of all proposals: a rejected playbook is never approved afterwards.
  pub serve-Reviewed :
      (id : String) (p : ProposedPlaybook) (rs : List (ℕ × Request)) (v : Service)
      → all (λ (x : ℕ × Request). keeps_proposal id x.1) rs ≡ true
      → Reviewed id p v
      → Reviewed id p (serve fnmatch policy rs v)
  serve-Reviewed id p =
      serve_rule fnmatch policy (Reviewed id p) (keeps_proposal id) (change-Reviewed id p)
