-- ===== src/Tests.antt =====
-- The theorems at concrete inputs.
mod Bus
mod Sessions
mod Faults
mod Programs
mod Host
mod Serial
mod Scopes
