-- ===== src/Courier.antt =====
-- The blind evidence courier (internal/evidence/courier).
pub mod Types
pub mod Routing
pub mod Queue
pub mod Sidecars
pub mod Devices
pub mod Backoff
pub mod Authority
pub mod Lane
pub mod Channel
pub mod Custody
pub mod Ingress
