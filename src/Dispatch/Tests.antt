-- ===== src/Dispatch/Tests.antt =====
-- The dispatcher's theorems at concrete inputs.
mod Setup
mod System
mod Calls
mod Later
