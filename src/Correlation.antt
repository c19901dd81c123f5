-- ===== src/Correlation.antt =====
-- services/correlation: scored telemetry is windowed into situations.
pub mod Policy
pub mod Correlator
pub mod Engine
pub mod Robust
pub mod River
pub mod Consumer
