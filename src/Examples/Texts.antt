-- ===== src/Examples/Texts.antt =====
-- Texts that are read and written.
use ebpf_packet_router.Prelude.{All, ◌<◌, ◌++◌, ◌≡◌, refl, arith, [], ◌∷◌, ok, some, value?}
use ebpf_packet_router.Std.Text.{codes, trim_space}
use ebpf_packet_router.Std.Strconv.{parse_uint}
use ebpf_packet_router.Std.Binary.{uint32_be}
use ebpf_packet_router.Std.Float.{fixed2}
use ebpf_packet_router.Std.Number.{decimal}
use ebpf_packet_router.Std.Address.{Ip, parse_ip, parse_ipv4, v4_in_v6, to4}
use ebpf_packet_router.Maps.Types.{
  parse_mac, mac_string, ip_to_uint32, uint32_to_ip, action_string, format_bytes,
}
use ebpf_packet_router.Maps.Types.Laws.{uint32_to_ip-ip_to_uint32}
use ebpf_packet_router.Maps.Types.Texts.{parse_mac-mac_string}
use ebpf_packet_router.Cmd.Teid.{parse_teid, parse_hex_or_decimal}
use ebpf_packet_router.Cmd.Teid.Laws.{teid_text, parse_teid-teid_text}
use ebpf_packet_router.Tui.Form.Build.{parse_hex_or_dec}
use ebpf_packet_router.Tui.Form.Agreement.{parse_hex_or_dec-parse_teid}

parse_teid-teid_text_example : parse_teid (teid_text 0xDEAD) ≡ ok 0xDEAD
parse_teid-teid_text_example = parse_teid-teid_text 0xDEAD (omega arith)

parsed : parse_teid (codes " 0xdead ") ≡ ok 57005
unfolding parse_teid parse_hex_or_decimal trim_space parse_uint
parsed = refl

parse_hex_or_dec-parse_teid_example :
    value? (parse_hex_or_dec (codes " 0x1G")) ≡ value? (parse_teid (codes " 0x1G"))
parse_hex_or_dec-parse_teid_example = parse_hex_or_dec-parse_teid (codes " 0x1G")

parse_mac-mac_string_example :
    parse_mac (mac_string (2 ∷ 0 ∷ 0 ∷ 0xAB ∷ 0 ∷ 1 ∷ [])) ≡ ok (2 ∷ 0 ∷ 0 ∷ 0xAB ∷ 0 ∷ 1 ∷ [])
parse_mac-mac_string_example =
    parse_mac-mac_string 2 0 0 0xAB 0 1
      (omega arith, (omega arith, (omega arith, (omega arith, (omega arith, (omega arith, tt))))))

-- 10.1.0.2 as net.ParseIP returns it
abbrev parsed_ip : Ip
parsed_ip = v4_in_v6 ++ (10 ∷ 1 ∷ 0 ∷ 2 ∷ [])

is_parsed : parse_ip (codes "10.1.0.2") ≡ some parsed_ip
unfolding parse_ip parse_ipv4
is_parsed = refl

parsed_ip-bytes : All (λ x. x < 256) parsed_ip
parsed_ip-bytes = ground arith

as_number : ip_to_uint32 parsed_ip ≡ ok 0x0A010002
unfolding ip_to_uint32 to4 uint32_be
as_number = refl

uint32_to_ip-ip_to_uint32_example : to4 parsed_ip ≡ some (uint32_to_ip 0x0A010002)
uint32_to_ip-ip_to_uint32_example = uint32_to_ip-ip_to_uint32 parsed_ip parsed_ip-bytes as_number

-- texts of the program
printed : action_string 7 ≡ codes "UNKNOWN(7)"
unfolding action_string decimal
printed = refl

five_kilobytes : format_bytes 5304 ≡ codes "5.18KB"
unfolding format_bytes fixed2 decimal
five_kilobytes = refl
