-- ===== src/Tests/Governance.antt =====
-- Governance at concrete inputs: one role, and a request that nobody decides.
use intelliops.Base.{
  leb, if◌then◌else◌, ◌+◌, Bool, true, String, none, some, [], ◌∷◌, arith, ℕ, Option,
}
use intelliops.Contracts.{ApprovalRequest}
use intelliops.Governance.Rbac.{RbacPolicy}
use intelliops.Governance.HttpGate
use intelliops.Governance.Approvals.{Store}

abbrev policy : RbacPolicy
policy = record {
  roles = ("operator", record { action = some "execute"; resource = some "playbook:*" } ∷ []) ∷ [];
  actors = ("action-service", "operator" ∷ []) ∷ [];
}

-- A pattern that matches everything.
abbrev matches : String → String → Bool
matches resource glob = true

abbrev request : ApprovalRequest
request = record {
  id = "appr-sit-abc";
  situation_id = "sit-abc";
  playbook_id = "pb-1";
  requested_by = "action-service";
  status = "pending";
  decided_by = none;
  preflight = none;
}

abbrev approvals : Store
approvals = ("appr-sit-abc", request) ∷ []

-- One poll fails, the next reads a decision.
abbrev answers : ℕ → Option ApprovalRequest
answers i = if leb i 0 then none else some (record request { status = "approved" })

await_decision-IsFinal_example :
    HttpGate.IsFinal answers
      (λ i. i + i)
      5
      "appr-sit-abc"
      (HttpGate.await_decision answers (λ i. i + i) 5 "appr-sit-abc")
await_decision-IsFinal_example =
    HttpGate.await_decision-IsFinal answers (λ i. i + i) 5 "appr-sit-abc" 2 (omega arith)
      (λ i. omega arith)
