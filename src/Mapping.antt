-- ===== src/Mapping.antt =====
-- Field paths and value formats of cards (worlds/mapping.py).
pub mod Path
pub mod Resolve
pub mod Format
pub mod Parsing
pub mod Printing
pub mod RoundTrip
pub mod Selection
mod Tests
