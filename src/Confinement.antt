-- ===== src/Confinement.antt =====
-- worlds/confinement.py: the only way by which a request leaves the program.
pub mod Addresses
pub mod Allowed
pub mod Base
pub mod Urls
pub mod Guards
pub mod Credentials
pub mod Joined
pub mod Prepared
pub mod Exchanges
pub mod Bodies
pub mod Sessions
pub mod Login
pub mod Sending
pub mod Written
pub mod Confined
pub mod Sent
pub mod Calls
pub mod Unsent
mod Tests
