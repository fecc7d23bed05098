-- ===== src/Std/Number.antt =====
-- The verbs `%d`, `%08X` and `%02x` of package fmt on unsigned numbers.
pub mod Laws
use ebpf_packet_router.Prelude.{
  ℕ, zero, suc, ◌+◌, ◌-◌, ◌/◌, ◌%◌, ◌^◌, [], ◌∷◌, ◌==◌, ltb, if◌then◌else◌,
}
use ebpf_packet_router.Std.Text.{Bytes}

-- The digits of n before `out`. A number below 10 ^ k has at most k digits, so n + 1 is fuel enough.
unfoldable pub digits : ℕ → ℕ → Bytes → Bytes
digits zero n out = out
digits (suc fuel) n out =
    let more = digits fuel (n / 10) ((b'0' + n % 10) ∷ out) in
    if ltb n 10 then (b'0' + n) ∷ out else more

unfoldable pub decimal : ℕ → Bytes
unfolding digits
decimal n = digits (suc n) n []

abbrev pub hex_upper : ℕ → ℕ
hex_upper d = if ltb d 10 then b'0' + d else b'A' + (d - 10)

abbrev pub hex_lower : ℕ → ℕ
hex_lower d = if ltb d 10 then b'0' + d else b'a' + (d - 10)

-- the last k hexadecimal digits of n before `out`
unfoldable pub hex_digits : ℕ → ℕ → Bytes → Bytes
hex_digits zero n out = out
hex_digits (suc k) n out = hex_digits k (n / 16) (hex_upper (n % 16) ∷ out)

-- `%08X` of a uint32, which has no more than eight digits
unfoldable pub hex8 : ℕ → Bytes
unfolding hex_digits
hex8 n = hex_digits 8 n []

-- `%02x` of a byte
unfoldable pub hex2 : ℕ → Bytes
hex2 b = hex_lower (b / 16) ∷ hex_lower (b % 16) ∷ []
