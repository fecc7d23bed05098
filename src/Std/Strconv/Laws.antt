-- ===== src/Std/Strconv/Laws.antt =====
-- `ParseUint` reads back what the number verbs print, and its results fit the width.
use mathlib.Core.List.{cons-ne-nil}
use native.Mathlib.Nat.{pow-suc}
use ebpf_packet_router.Prelude.{
  ap, ◌∙◌, ℕ, zero, suc, ◌+◌, ◌-◌, ◌*◌, ◌/◌, ◌%◌, ◌^◌, ◌≤◌, ◌<◌, ◌≡◌, ◌≢◌, refl, [], ◌∷◌, arith,
  dec_lt, lt→ltb, not_lt→ltb, some, Option-cases, inl, inr, ok,
}
use ebpf_packet_router.Std.Text.{Bytes}
use ebpf_packet_router.Std.Number.{digits, decimal, hex_upper, hex_lower, hex_digits, hex8}
use ebpf_packet_router.Std.Number.Laws.{decimal-ne-nil}
use ebpf_packet_router.Std.Strconv.{digit, scan_uint, parse_uint}

-- one digit, read
scan_digit :
    (base max_val c d n : ℕ) (s : Bytes)
    → digit c ≡ some d
    → d < base
    → n * base + d ≤ max_val
    → scan_uint base max_val (c ∷ s) n ≡ scan_uint base max_val s (n * base + d)
unfolding scan_uint
scan_digit base max_val c d n s e h fits = rw (scan_uint, e) (ground arith)

pub digit-decimal : (d : ℕ) → d < 10 → digit (b'0' + d) ≡ some d
unfolding digit
digit-decimal d h = ground arith

pub digit-hex_upper : (d : ℕ) → d < 16 → digit (hex_upper d) ≡ some d
unfolding digit
digit-hex_upper d h = ground arith

pub digit-hex_lower : (d : ℕ) → d < 16 → digit (hex_lower d) ≡ some d
unfolding digit
digit-hex_lower d h = ground arith

scan_decimal :
    (max_val n d : ℕ) (s : Bytes)
    → d < 10
    → n * 10 + d ≤ max_val
    → scan_uint 10 max_val ((b'0' + d) ∷ s) n ≡ scan_uint 10 max_val s (n * 10 + d)
scan_decimal max_val n d s h fits =
    scan_digit 10 max_val (b'0' + d) d n s (digit-decimal d h) h fits

scan_hex :
    (max_val n d : ℕ) (s : Bytes)
    → d < 16
    → n * 16 + d ≤ max_val
    → scan_uint 16 max_val (hex_upper d ∷ s) n ≡ scan_uint 16 max_val s (n * 16 + d)
scan_hex max_val n d s h fits =
    scan_digit 16 max_val (hex_upper d) d n s (digit-hex_upper d h) h fits

scan-digits :
    (max_val fuel n : ℕ) (out : Bytes)
    → n < fuel
    → n ≤ max_val
    → scan_uint 10 max_val (digits fuel n out) 0 ≡ scan_uint 10 max_val out n
unfolding digits
scan-digits max_val zero n out h fits = elim h [ ]
scan-digits max_val (suc fuel) n out h fits = elim (dec_lt n 10) [
  | yes lt ↦
      rw (lt→ltb n 10 lt) (
        scan_decimal max_val 0 n out lt (omega arith) ∙ ap (scan_uint 10 max_val out) (omega arith))
  | no ge ↦ rw (not_lt→ltb n 10 ge) (
      scan-digits max_val fuel (n / 10) ((b'0' + n % 10) ∷ out) (omega arith) (omega arith)
      ∙ scan_decimal max_val (n / 10) (n % 10) out (omega arith) (omega arith)
      ∙ ap (scan_uint 10 max_val out) (omega arith))
]

scan-hex_digits :
    (max_val k n : ℕ) (out : Bytes)
    → n < 16 ^ k
    → n ≤ max_val
    → scan_uint 16 max_val (hex_digits k n out) 0 ≡ scan_uint 16 max_val out n
unfolding hex_digits
scan-hex_digits max_val zero n out h fits = ap (scan_uint 16 max_val out) (omega arith)
scan-hex_digits max_val (suc k) n out h fits =
    scan-hex_digits max_val k (n / 16) (hex_upper (n % 16) ∷ out) (omega (arith, pow-suc 16 k))
      (omega arith)
    ∙ scan_hex max_val (n / 16) (n % 16) out (omega arith) (omega arith)
    ∙ ap (scan_uint 16 max_val out) (omega arith)

pub parse_uint-scan :
    (s : Bytes) (base bits : ℕ)
    → s ≢ []
    → parse_uint s base bits ≡ scan_uint base (2 ^ bits - 1) s 0
unfolding parse_uint
parse_uint-scan [] base bits h = absurd (h refl)
parse_uint-scan (c ∷ s) base bits h = refl

pub parse_uint-decimal : (n bits : ℕ) → n ≤ 2 ^ bits - 1 → parse_uint (decimal n) 10 bits ≡ ok n
unfolding decimal scan_uint
parse_uint-decimal n bits h =
    rw (parse_uint-scan (decimal n) 10 bits (decimal-ne-nil n))
      (scan-digits (2 ^ bits - 1) (suc n) n [] (omega arith) h)

hex_digits-ne-nil : (k n : ℕ) (out : Bytes) → out ≢ [] → hex_digits k n out ≢ []
unfolding hex_digits
hex_digits-ne-nil zero n out h = h
hex_digits-ne-nil (suc k) n out h = hex_digits-ne-nil k (n / 16) (hex_upper (n % 16) ∷ out) (cc)

pub parse_uint-hex8 : (n : ℕ) → n < 2 ^ 32 → parse_uint (hex8 n) 16 32 ≡ ok n
unfolding hex8 scan_uint
parse_uint-hex8 n h =
    rw (parse_uint-scan (hex8 n) 16 32 (hex_digits-ne-nil 7 (n / 16) _ (cons-ne-nil _ _)))
      (scan-hex_digits (2 ^ 32 - 1) 8 n [] (omega arith) (omega arith))

-- A result is below 2 ^ bits.
scan_bound :
    (base max_val n : ℕ) (s : Bytes) {r : ℕ}
    → n ≤ max_val
    → scan_uint base max_val s n ≡ ok r
    → r ≤ max_val
unfolding scan_uint
scan_bound base max_val n [] h e = ground arith
scan_bound base max_val n (c ∷ s) {r} h e = elim (Option-cases (digit c)) [
  | inl none_e ↦ ground arith
  | inr (d, some_e) ↦ ground (arith, scan_bound base max_val (n * base + d) s {r = r})
]

pub parse_uint_bound :
    (s : Bytes) (base bits : ℕ) {r : ℕ} → parse_uint s base bits ≡ ok r → r ≤ 2 ^ bits - 1
unfolding parse_uint
parse_uint_bound [] base bits h = cc
parse_uint_bound (c ∷ s) base bits h = scan_bound base (2 ^ bits - 1) 0 (c ∷ s) (omega arith) h
