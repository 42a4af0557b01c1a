-- ===== src/Dispatch/Moves.antt =====
-- How one row of each table may change, and that every operation changes it so.
pub mod Rules
pub mod Cases
pub mod Executions
pub mod Authorizations
