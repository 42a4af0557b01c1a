-- ===== src/Runner/Laws.antt =====
-- What a call of `fetch` promises.
pub mod Endings
pub mod Sends
pub mod Assertions
pub mod Success
pub mod Caching
pub mod Returns
pub mod Sharing
