-- ===== src/Site.antt =====
-- The site registry and its projection (internal/site).
pub mod Evidence
pub mod Registry
pub mod Health
pub mod Degradation
