-- ===== src/Dispatch/Laws.antt =====
-- What single calls of the dispatcher promise.
pub mod Forever
pub mod Approval
pub mod Requests
pub mod Evidence
pub mod Consume
pub mod Attempt
pub mod Single
pub mod Recovery
pub mod Changes
