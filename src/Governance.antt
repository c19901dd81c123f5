-- ===== src/Governance.antt =====
-- services/governance: the policy, the approvals, and the gate that the action service calls.
pub mod Rbac
pub mod Approvals
pub mod Proposals
pub mod Service
pub mod Gate
pub mod HttpGate
pub mod Author
pub mod RunHub
