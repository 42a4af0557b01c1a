-- ===== src/Dispatch.antt =====
-- worlds/dispatcher.py: authorizations, single dispatch, receipts.
pub mod Rows
pub mod Outcome
pub mod Base
pub mod Request
pub mod Approve
pub mod Send
pub mod Execute
pub mod Recover
pub mod Moves
pub mod System
pub mod Laws
mod Tests
