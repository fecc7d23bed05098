-- ===== src/Std/Strconv.antt =====
-- `strconv.ParseUint(s, base, bitSize)` for base 10 and base 16. Its test of the cutoff keeps the
-- product within 64 bits; with a bitSize of at most 32 that test never fires, and the bound on the
-- value, `maxVal`, is the one that decides.
pub mod Laws
use ebpf_packet_router.Prelude.{
  ℕ, ◌+◌, ◌-◌, ◌*◌, ◌/◌, ◌%◌, ◌^◌, [], ◌∷◌, Option, none, some, ◌==◌, ltb, leb, within, Result, ok,
  err, if◌then◌else◌,
}
use ebpf_packet_router.Std.Text.{Bytes}

pub data NumError : Type 0 where
  err_syntax err_range : NumError

-- `c | ('x' - 'X')`: sets the bit of value 32
abbrev pub lower : ℕ → ℕ
lower c = if c / 32 % 2 == 0 then c + 32 else c

unfoldable pub digit : ℕ → Option ℕ
digit c =
    if within b'0' b'9' c
    then some (c - b'0')
    else if within b'a' b'z' (lower c)
    then some (lower c - b'a' + 10)
    else none

unfoldable pub scan_uint : ℕ → ℕ → Bytes → ℕ → Result NumError ℕ
unfolding digit
scan_uint base max_val [] n = ok n
scan_uint base max_val (c ∷ s) n = elim (digit c) [
  | none ↦ err err_syntax
  | some d ↦
      if leb base d
      then err err_syntax
      else if ltb max_val (n * base + d)
      then err err_range
      else scan_uint base max_val s (n * base + d)
]

unfoldable pub parse_uint : Bytes → ℕ → ℕ → Result NumError ℕ
unfolding scan_uint
parse_uint [] base bits = err err_syntax
parse_uint (c ∷ s) base bits = scan_uint base (2 ^ bits - 1) (c ∷ s) 0
