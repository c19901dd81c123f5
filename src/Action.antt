-- ===== src/Action.antt =====
-- services/action: the service that runs a playbook against a diagnosed situation.
pub mod Denylist
pub mod Effects
pub mod Remediate
pub mod Consumer
pub mod Recovery
pub mod Kubernetes
pub mod Health
pub mod Sandbox
