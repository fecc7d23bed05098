-- ===== src/Tui/Form/Agreement.antt =====
-- The form reads a TEID as the sub-commands do, and its picker offers what the parser reads.
use ebpf_packet_router.Prelude.{◌≡◌, refl, [], ◌∷◌, value?, Result-cases, inl, inr}
use ebpf_packet_router.Std.Text.{Bytes, trim_space}
use ebpf_packet_router.Std.Strconv.{parse_uint}
use ebpf_packet_router.Cmd.Teid.{parse_hex_or_decimal, parse_teid, or_invalid}
use ebpf_packet_router.Tui.Form.Build.{parse_hex_or_dec, parse_trimmed}

trimmed-value? :
    (t : Bytes) → value? (parse_trimmed t) ≡ value? (or_invalid t (parse_hex_or_decimal t))
trimmed-value? [] = unfold parse_hex_or_decimal in unfold parse_uint in refl
trimmed-value? (c ∷ t) = elim (Result-cases (parse_hex_or_decimal (c ∷ t))) [
  | inl (n, e) ↦ rw e
  | inr (x, e) ↦ rw e
]

-- The form's parseHexOrDec accepts exactly the texts that the sub-commands' parseTEID accepts, with
-- the same values.
pub parse_hex_or_dec-parse_teid : (s : Bytes) → value? (parse_hex_or_dec s) ≡ value? (parse_teid s)
unfolding parse_hex_or_dec parse_teid
parse_hex_or_dec-parse_teid [] = unfold trim_space in refl
parse_hex_or_dec-parse_teid (c ∷ s) = trimmed-value? (trim_space (c ∷ s))
