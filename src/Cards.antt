-- ===== src/Cards.antt =====
-- worlds/cards.py: what a card shows of the data that was fetched for it.
pub mod Keys
pub mod States
pub mod Fetched
pub mod Build
pub mod Honest
pub mod Current
pub mod Missing
mod Tests
