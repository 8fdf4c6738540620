-- ===== src/Claiming.antt =====
-- What `claimNextJob` of internal/store/sqlite/sqlite.go promises: its loop as a search, the limits on
-- running jobs, and the order in which jobs are taken.
pub mod Loop
pub mod Capacity
pub mod Priority
