-- ===== src/Leasing.antt =====
-- What the store guarantees of leases and owners.
pub mod Release
pub mod Fencing
pub mod Attempts
pub mod Adoption
