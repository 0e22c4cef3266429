-- ===== src/Revenuecat.antt =====
-- backend/app/services/revenuecat.
pub mod Client
pub mod Swap
