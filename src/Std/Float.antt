-- ===== src/Std/Float.antt =====
-- `fmt.Sprintf("%.2f", float64(b)/float64(1<<k))` for an unsigned 64-bit b: the conversion rounds b
-- to 53 significant bits, the division by a power of two is exact, and the verb rounds the exact
-- quotient to two decimals. Both round half to even.
use ebpf_packet_router.Prelude.{
  ℕ, zero, suc, ◌+◌, ◌*◌, ◌/◌, ◌%◌, ◌^◌, [], ◌∷◌, ◌++◌, ltb, arith, All, All-append, if◌then◌else◌,
}
use ebpf_packet_router.Std.Text.{Bytes}
use ebpf_packet_router.Std.Text.Laws.{IsGraphic}
use ebpf_packet_router.Std.Number.{decimal}
use ebpf_packet_router.Std.Number.Laws.{decimal-IsGraphic}

-- n / d to the nearest whole number, ties to even
round_even : ℕ → ℕ → ℕ
round_even n d =
    let q = n / d in
    let r = n % d in if ltb (2 * r) d then q else if ltb d (2 * r) then q + 1 else q + q % 2

-- how many of its low bits a number of at most 53 + fuel bits loses
float_shift : ℕ → ℕ → ℕ
float_shift zero b = 0
float_shift (suc fuel) b =
    let more = suc (float_shift fuel (b / 2)) in if ltb b (2 ^ 53) then 0 else more

-- float64(b) of a uint64, which has at most 11 bits too many
unfoldable pub float64_of : ℕ → ℕ
unfolding round_even float_shift
float64_of b = round_even b (2 ^ float_shift 11 b) * 2 ^ float_shift 11 b

unfoldable pub fixed2 : ℕ → ℕ → Bytes
unfolding float64_of
fixed2 b k =
    let r = round_even (float64_of b * 100) (2 ^ k) in
    decimal (r / 100) ++ b'.' ∷ (b'0' + r % 100 / 10) ∷ (b'0' + r % 10) ∷ []

pub fixed2-IsGraphic : (b k : ℕ) → All IsGraphic (fixed2 b k)
unfolding fixed2
fixed2-IsGraphic b k =
    All-append IsGraphic (decimal _) _ (decimal-IsGraphic _)
      (omega arith, (omega arith, (omega arith, tt)))
