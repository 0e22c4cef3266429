-- ===== src/Assets.antt =====
-- backend/app/services/asc/asset_sync.py: screenshots and previews synced from an export directory.
pub mod Slots
pub mod Client
pub mod Sync
