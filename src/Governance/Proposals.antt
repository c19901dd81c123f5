-- ===== src/Governance/Proposals.antt =====
-- services/governance/adapters: the in-memory stores of playbooks, of proposals and of the author's
-- decisions (playbook_store.py, proposed_store.py, author_decision_store.py), and consumer.py, which
-- writes outcomes back onto those decisions.
use intelliops.Base.{
  Bool, true, false, String, ◌==◌, Option, none, some, List, [], ◌∷◌, map, filter, if◌then◌else◌,
}
use intelliops.Base.Dict.{Dict, lookup, insert}
use intelliops.Contracts.{
  Playbook, ProposedPlaybook, ProposedPlaybookStatus, proposed, approved, rejected, AuthorDecision,
  AuthorDecisionDisposition, AuthorDecisionOutcome, RemediationOutcome, is_escalated, is_success,
}

abbrev pub Registry : Type 0
Registry = Dict Playbook

unfoldable pub register : Playbook → Registry → Registry
register playbook d = insert playbook.id playbook d

abbrev pub Proposed : Type 0
Proposed = Dict ProposedPlaybook

unfoldable pub add : ProposedPlaybook → Proposed → Proposed
add proposal d = insert proposal.id proposal d

abbrev pub is_proposed : ProposedPlaybookStatus → Bool
is_proposed proposed = true
is_proposed _ = false

abbrev pub same_status : ProposedPlaybookStatus → ProposedPlaybookStatus → Bool
same_status proposed proposed = true
same_status approved approved = true
same_status rejected rejected = true
same_status _ _ = false

abbrev pub values : {V : Type 0} → Dict V → List V
values [] = []
values ((k, v) ∷ d) = v ∷ values d

-- `list`, of one status or of all
unfoldable pub list : Option ProposedPlaybookStatus → Proposed → List ProposedPlaybook
list none d = values d
list (some status) d = filter (λ (p : ProposedPlaybook). same_status p.status status) (values d)

unfoldable pub set_status :
    String → ProposedPlaybookStatus → String → Proposed → Option ProposedPlaybook × Proposed
set_status proposal_id status decided_by d = elim (lookup proposal_id d) [
  | none ↦ (none, d)
  | some cur ↦
      let updated = record cur { status = status; decided_by = some decided_by } in
      (some updated, insert proposal_id updated d)
]

unfoldable pub by_signature : String → List AuthorDecision → List AuthorDecision
by_signature signature = filter (λ (d : AuthorDecision). d.signature == signature)

unfoldable pub update_disposition :
    String → AuthorDecisionDisposition → String → List AuthorDecision → List AuthorDecision
update_disposition proposal_id disposition decided_by = map (λ (d : AuthorDecision).
    if d.proposal_id == proposal_id
    then record d { disposition = disposition; decided_by = some decided_by }
    else d)

unfoldable pub update_outcome :
    String → AuthorDecisionOutcome → List AuthorDecision → List AuthorDecision
update_outcome playbook_id outcome = map (λ (d : AuthorDecision).
    if d.playbook_id == playbook_id then record d { outcome = outcome } else d)

-- The body of the consumer's loop.
unfoldable pub handle_outcome : RemediationOutcome → List AuthorDecision → List AuthorDecision
handle_outcome o ds =
    if is_escalated o.result
    then ds
    else update_outcome o.playbook_id
        (if is_success o.result then AuthorDecisionOutcome.worked else AuthorDecisionOutcome.failed)
        ds
