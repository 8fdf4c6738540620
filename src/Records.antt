-- ===== src/Records.antt =====
-- The records that the store keeps once: jobs by dedupe key, gate blocks and handoffs.
pub mod Enqueue
pub mod Blocks
pub mod Newest
