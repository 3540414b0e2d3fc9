-- ===== src/Alerts.antt =====
-- The operations on alerts of backend/app/alerts.
pub mod Validation
pub mod Creation
pub mod Lifecycle
pub mod Policy
pub mod Queue
pub mod History
