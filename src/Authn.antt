-- ===== src/Authn.antt =====
-- Callers, sessions and agent tokens, and the authentication of a request (worlds/authn.py).
pub mod Principal
pub mod Sessions
pub mod Lifetime
pub mod Requests
pub mod Callers
mod Tests
