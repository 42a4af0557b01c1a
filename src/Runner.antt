-- ===== src/Runner.antt =====
-- worlds/runner.py: one fetch per request, and what is done to a message before it is stored.
pub mod Redact
pub mod Fetch
pub mod Classify
pub mod Fetching
pub mod Flights
pub mod Laws
mod Tests
