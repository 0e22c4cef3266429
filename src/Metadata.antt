-- ===== src/Metadata.antt =====
-- backend/app/services/metadata: what may be written to App Store metadata, and the bulk write.
pub mod Validation
pub mod Guard
pub mod Audit
pub mod Bulk
