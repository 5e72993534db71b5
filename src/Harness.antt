-- ===== src/Harness.antt =====
-- core/harness under backend/app: what the harness learns from runs of the apply task.
pub mod Diagnose
pub mod Anomaly
pub mod Skills
pub mod Review
