-- ===== src/Routing.antt =====
-- What the router guarantees of its gate, its counts and the jobs of an issue.
pub mod Matching
pub mod Gating
pub mod Counts
