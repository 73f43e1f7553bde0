-- ===== src/Tests.antt =====
-- Concrete runs of the methods, on a sample channel with sample cryptography.
pub mod Samples
pub mod Balances
pub mod Life
pub mod Bytes
pub mod Messages
pub mod Secrets
pub mod Opening
