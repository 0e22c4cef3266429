-- ===== src/Mcp.antt =====
-- backend/app/mcp: the server that exposes the service to agents.
pub mod Consent
