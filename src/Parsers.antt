-- ===== src/Parsers.antt =====
-- The ingestion and normalization of Windows events, backend/app/parsers.
pub mod Integers
pub mod Errors
pub mod Outcomes
pub mod Xml
pub mod WindowsEvent
pub mod Fields
pub mod Slots
pub mod Normalized
pub mod WindowsSecurity
pub mod Sysmon
pub mod Registry
pub mod Pipeline
