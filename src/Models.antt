-- ===== src/Models.antt =====
-- The data contracts of backend/app/models.
pub mod Event
pub mod Condition
pub mod Rule
pub mod Trace
pub mod Match
pub mod Alert
pub mod Raw
