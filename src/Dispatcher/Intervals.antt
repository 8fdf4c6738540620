-- ===== src/Dispatcher/Intervals.antt =====
-- dispatcher.go and internal/daemon/daemon.go: `CleanupTimeout`, `HeartbeatInterval`,
-- `activePollInterval`, and their copies in the daemon.
use Prim.Native.Nat.{◌/◌, ◌*◌}
use issueq.Prelude.{
  ℕ, ◌≤◌, ◌<◌, ℤ, pos, negsuc, ◌≡◌, false, ◌||◌, leb_ℤ, ltb_ℤ, ltb, ◌==◌, if◌then◌else◌, arith,
  Bool-cases, inl, inr,
}
use issueq.Config.Defaults.{default_lease_duration}

abbrev second : ℕ
second = 1000000000

unfoldable pub cleanup_timeout : ℤ → ℤ
cleanup_timeout lease =
    let given = if leb_ℤ lease (pos 0) then default_lease_duration else lease in
    let least = if ltb_ℤ given (pos second) then pos second else given in
    if ltb_ℤ (pos (10 * second)) least then pos (10 * second) else least

-- `lease / 4` is rounded towards zero.
unfoldable pub heartbeat_interval : ℤ → ℕ
heartbeat_interval (negsuc n) = second
heartbeat_interval (pos n) = if n / 4 == 0 || ltb second (n / 4) then second else n / 4

unfoldable pub active_poll_interval : ℤ → ℕ
unfolding heartbeat_interval
active_poll_interval lease =
    if ltb 50000000 (heartbeat_interval lease) then 50000000 else heartbeat_interval lease

-- For a lease of at least four nanoseconds, a runner beats at intervals that are not zero, at
-- most a second, and of which four fit into the lease; it polls its active jobs at least as
-- often.
pub heartbeat_interval-bounds :
    (n : ℕ)
    → 4 ≤ n
    → (0 < heartbeat_interval (pos n))
      × (heartbeat_interval (pos n) ≤ second)
      × (heartbeat_interval (pos n) * 4 ≤ n)
      × (active_poll_interval (pos n) ≤ heartbeat_interval (pos n))
unfolding heartbeat_interval active_poll_interval
heartbeat_interval-bounds n h =
    let some_time : (n / 4 == 0) ≡ false = ground arith in
    elim (Bool-cases (ltb second (n / 4))) [
      | inl e ↦ rw (some_time, e) (omega arith, omega arith, ground arith, omega arith)
      | inr e ↦ rw (some_time, e) (ground arith, ground arith, ground arith, ground arith)
    ]
