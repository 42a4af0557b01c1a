-- ===== src/Roles.antt =====
-- Who may do what in the household: roles, permissions, helper grants (roles.py).
pub mod Permissions
pub mod Can
pub mod Groups
pub mod Access
pub mod Best
mod Tests
