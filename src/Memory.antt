-- ===== src/Memory.antt =====
-- Kept, Later, Records and their history (worlds/memory_store.py).
pub mod Rows
pub mod Validation
pub mod Store
pub mod Gate
pub mod Whole
mod Tests
