-- ===== src/Std/Pad.antt =====
-- The verbs `%-*s` and `%*s` of package fmt on ASCII texts: a text that is longer than the width is
-- written whole.
use ebpf_packet_router.Prelude.{
  ℕ, zero, suc, ◌-◌, ◌≤◌, ◌≡◌, refl, ap, ◌++◌, length, replicate, arith, length-append,
}
use ebpf_packet_router.Std.Text.{Bytes}

unfoldable pub pad_right : ℕ → Bytes → Bytes
pad_right w s = s ++ replicate (w - length s) b' '

unfoldable pub pad_left : ℕ → Bytes → Bytes
pad_left w s = replicate (w - length s) b' ' ++ s

length-replicate : (n c : ℕ) → length (replicate n c) ≡ n
length-replicate zero c = refl
length-replicate (suc n) c = ap suc (length-replicate n c)

pub length-pad_right : (w : ℕ) (s : Bytes) → length s ≤ w → length (pad_right w s) ≡ w
unfolding pad_right
length-pad_right w s h =
    omega
      (arith, length-append s (replicate (w - length s) b' '), length-replicate (w - length s) b' ')

pub length-pad_right_over : (w : ℕ) (s : Bytes) → w ≤ length s → length (pad_right w s) ≡ length s
unfolding pad_right
length-pad_right_over w s h =
    omega
      (arith, length-append s (replicate (w - length s) b' '), length-replicate (w - length s) b' ')
