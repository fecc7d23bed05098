-- ===== src/Std/Number/Laws.antt =====
-- What the number verbs print: graphic bytes only, at least one of them.
use native.Mathlib.Nat.{pow-suc}
use ebpf_packet_router.Prelude.{
  ℕ, zero, suc, ◌+◌, ◌/◌, ◌%◌, ◌^◌, ◌≤◌, ◌<◌, ◌≢◌, [], ◌∷◌, arith, All, length, dec_lt, lt→ltb,
  not_lt→ltb,
}
use ebpf_packet_router.Std.Text.{Bytes}
use ebpf_packet_router.Std.Text.Laws.{IsGraphic}
use ebpf_packet_router.Std.Number.{digits, decimal, hex_upper, hex_lower, hex_digits, hex8, hex2}

abbrev pub IsDigit : ℕ → Type 0
IsDigit c = (b'0' ≤ c) × (c ≤ b'9')

All-digits :
    (P : ℕ → Type 0) (fuel n : ℕ) (out : Bytes)
    → ((d : ℕ) → d < 10 → P (b'0' + d))
    → All P out
    → All P (digits fuel n out)
unfolding digits
All-digits P zero n out p h = h
All-digits P (suc fuel) n out p h = elim (dec_lt n 10) [
  | yes lt ↦ rw (lt→ltb n 10 lt) (p n lt, h)
  | no ge ↦
      rw (not_lt→ltb n 10 ge)
        (All-digits P fuel (n / 10) ((b'0' + n % 10) ∷ out) p (p (n % 10) (omega arith), h))
]

pub decimal-IsDigit : (n : ℕ) → All IsDigit (decimal n)
unfolding decimal
decimal-IsDigit n = All-digits IsDigit (suc n) n [] (λ d lt. omega arith) tt

pub decimal-IsGraphic : (n : ℕ) → All IsGraphic (decimal n)
unfolding decimal
decimal-IsGraphic n = All-digits IsGraphic (suc n) n [] (λ d lt. omega arith) tt

digits-ne-nil : (fuel n : ℕ) (out : Bytes) → out ≢ [] → digits fuel n out ≢ []
unfolding digits
digits-ne-nil zero n out h = h
digits-ne-nil (suc fuel) n out h =
    ground (arith, digits-ne-nil fuel (n / 10) ((b'0' + n % 10) ∷ out))

pub decimal-ne-nil : (n : ℕ) → decimal n ≢ []
unfolding decimal digits
decimal-ne-nil n = ground (arith, digits-ne-nil n (n / 10) ((b'0' + n % 10) ∷ []))

pub hex_upper-IsGraphic : (d : ℕ) → d < 16 → IsGraphic (hex_upper d)
hex_upper-IsGraphic d h = ground arith

pub hex_lower-IsGraphic : (d : ℕ) → d < 16 → IsGraphic (hex_lower d)
hex_lower-IsGraphic d h = ground arith

All-hex_digits : (k n : ℕ) (out : Bytes) → All IsGraphic out → All IsGraphic (hex_digits k n out)
unfolding hex_digits
All-hex_digits zero n out h = h
All-hex_digits (suc k) n out h =
    All-hex_digits k (n / 16) (hex_upper (n % 16) ∷ out)
      (hex_upper-IsGraphic (n % 16) (omega arith), h)

pub hex8-IsGraphic : (n : ℕ) → All IsGraphic (hex8 n)
unfolding hex8
hex8-IsGraphic n = All-hex_digits 8 n [] tt

pub hex2-IsGraphic : (b : ℕ) → b < 256 → All IsGraphic (hex2 b)
unfolding hex2
hex2-IsGraphic b h =
    (hex_lower-IsGraphic (b / 16) (omega arith), (hex_lower-IsGraphic (b % 16) (omega arith), tt))

length-digits :
    (k fuel n : ℕ) (out : Bytes) → n < 10 ^ suc k → length (digits fuel n out) ≤ suc k + length out
unfolding digits
length-digits k zero n out h = omega arith
length-digits zero (suc fuel) n out h = elim (dec_lt n 10) [
  | yes lt ↦ rw (lt→ltb n 10 lt) (omega arith)
  | no ge ↦ absurd (ge h)
]
length-digits (suc k) (suc fuel) n out h = elim (dec_lt n 10) [
  | yes lt ↦ rw (lt→ltb n 10 lt) (omega arith)
  | no ge ↦
      let power = pow-suc 10 (suc k) in
      let rest : n / 10 < 10 ^ suc k = omega arith in
      rw (not_lt→ltb n 10 ge)
        (omega (arith, length-digits k fuel (n / 10) ((b'0' + n % 10) ∷ out) rest))
]

-- A number below 10 ^ k has at most k digits, if k is not 0.
pub length-decimal : (k n : ℕ) → n < 10 ^ suc k → length (decimal n) ≤ suc k
unfolding decimal
length-decimal k n h = omega (arith, length-digits k (suc n) n [] h)
