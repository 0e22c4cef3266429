-- ===== src/Visibility.antt =====
-- backend/app/services/visibility: ranks of a keyword over time.
pub mod Anomaly
