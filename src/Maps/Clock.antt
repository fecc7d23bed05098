-- ===== src/Maps/Clock.antt =====
-- gtp-router/control/maps/clock.go.
use ebpf_packet_router.Prelude.{ℕ, ◌+◌, ◌*◌, ◌%◌, ◌^◌, Option, none, some}

-- What `unix.ClockGettime(unix.CLOCK_MONOTONIC, &ts)` fills in, seconds and nanoseconds, or none if
-- it fails.
abbrev pub Timespec : Type 0
Timespec = Option (ℕ × ℕ)

-- 0 if the clock cannot be read
unfoldable pub monotonic_now_ns : Timespec → ℕ
monotonic_now_ns none = 0
monotonic_now_ns (some (sec, nsec)) = (sec * 1000000000 + nsec) % 2 ^ 64
