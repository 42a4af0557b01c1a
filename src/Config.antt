-- ===== src/Config.antt =====
-- worlds/models.py and worlds/config_store.py: actions, requests, providers, and action versions.
pub mod Models
pub mod Checks
pub mod Store
pub mod Files
