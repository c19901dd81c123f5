-- ===== src/Feedback.antt =====
-- services/feedback: outcomes become training records, and a clean track record graduates a playbook.
pub mod Label
pub mod Graduate
pub mod Metrics
pub mod Consumer
