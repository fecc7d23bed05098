-- ===== src/Cmd/Teid.antt =====
-- gtp-router/control/cmd/util.go: `parseTEID`.
pub mod Laws
use ebpf_packet_router.Prelude.{ℕ, Bool, ◌||◌, [], ◌∷◌, drop, Result, ok, err, if◌then◌else◌}
use ebpf_packet_router.Std.Text.{Bytes, codes, has_prefix, trim_space}
use ebpf_packet_router.Std.Strconv.{NumError, parse_uint}
use ebpf_packet_router.Errors.{Error, empty_teid, invalid_teid}

-- the number behind "0x" or "0X" in hexadecimal, any other in decimal, in 32 bits
unfoldable pub parse_hex_or_decimal : Bytes → Result NumError ℕ
unfolding has_prefix
parse_hex_or_decimal s =
    if has_prefix s (codes "0x") || has_prefix s (codes "0X")
    then parse_uint (drop 2 s) 16 32
    else parse_uint s 10 32

abbrev pub or_invalid : Bytes → Result NumError ℕ → Result Error ℕ
or_invalid s (ok val) = ok val
or_invalid s (err e) = err (invalid_teid s)

unfoldable pub parse_teid : Bytes → Result Error ℕ
parse_teid [] = err empty_teid
parse_teid (c ∷ s) = or_invalid (trim_space (c ∷ s)) (parse_hex_or_decimal (trim_space (c ∷ s)))
