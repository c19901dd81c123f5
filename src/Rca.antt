-- ===== src/Rca.antt =====
-- services/rca: the service that looks for the cause of a situation and names a runbook for it.
pub mod Rank
pub mod Selector
pub mod Reliability
pub mod Diagnose
