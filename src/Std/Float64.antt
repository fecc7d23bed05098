-- ===== src/Std/Float64.antt =====
-- What the dashboard uses of Go's float64: the rates that it shows are divided and printed by it.
use ebpf_packet_router.Prelude.{ℕ, ◌≡◌, Bool, true, ℤ}
use ebpf_packet_router.Std.Text.{Bytes}

pub record Float64 : Type 1 where
  pub F : Type 0
  -- `0.0`
  pub zero_float : F
  -- `x <= 0`
  pub at_most_zero : F → Bool
  -- time.Duration.Seconds, of nanoseconds
  pub seconds : ℤ → F
  -- `float64(n)` of a uint64
  pub of_uint64 : ℕ → F
  pub divide : F → F → F
  -- the verb `%.1f`
  pub fixed1 : F → Bytes
  pub at_most_zero-zero : at_most_zero zero_float ≡ true
