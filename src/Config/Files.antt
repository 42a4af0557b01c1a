-- ===== src/Config/Files.antt =====
-- The writing side of worlds/config_store.py: references, etags and action versions.
pub mod Objects
pub mod References
pub mod Changes
pub mod Cases
pub mod Closed
pub mod Preserved
pub mod Versions
pub mod Etags
pub mod Reload
pub mod Reloaded
pub mod Loading
mod Tests
