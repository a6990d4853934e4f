-- ===== src/Alerts.antt =====
-- Alerts (packages/alerts).
pub mod Outbox
