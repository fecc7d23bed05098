-- ===== src/Examples/Floats.antt =====
-- A float64 as a whole number, one value for what the model asks of Go's float64, and styles that
-- change nothing.
use ebpf_packet_router.Prelude.{ℕ, zero, suc, ◌/◌, refl, [], ◌++◌, ℤ, pos, negsuc, ◌==◌}
use ebpf_packet_router.Std.Text.{codes}
use ebpf_packet_router.Std.Number.{decimal}
use ebpf_packet_router.Std.Float64.{Float64}
use ebpf_packet_router.Tui.Styles.{Styles}

abbrev whole_seconds : ℤ → ℕ
whole_seconds (pos n) = n / 1000000000
whole_seconds (negsuc n) = 0

abbrev quotient : ℕ → ℕ → ℕ
quotient a zero = 0
quotient a (suc b) = a / suc b

abbrev pub whole_floats : Float64
whole_floats = record {
  F = ℕ;
  zero_float = 0;
  at_most_zero = λ x. x == 0;
  seconds = whole_seconds;
  of_uint64 = λ n. n;
  divide = quotient;
  fixed1 = λ x. decimal x ++ codes ".0";
  at_most_zero-zero = refl;
}

abbrev pub plain_styles : Styles
plain_styles = record {
  panel = λ s. s;
  title = λ s. s;
  footer = λ s. s;
  error = λ s. s;
  error_text = λ e. [];
}
