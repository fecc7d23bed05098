-- ===== src/Tui/Form/Build.antt =====
-- The rule that the form builds (`parseHexOrDec` and `buildRule` of form.go).
use ebpf_packet_router.Prelude.{
  ℕ, ◌%◌, ◌^◌, true, false, [], ◌∷◌, none, some, Result, ok, err, wrap, ◌>>=◌, ◌>>◌, get_or,
}
use ebpf_packet_router.Std.Text.{Bytes, codes, trim_space}
use ebpf_packet_router.Std.Strconv.{NumError, parse_uint}
use ebpf_packet_router.Std.Address.{parse_ip}
use ebpf_packet_router.Std.Binary.{put_uint16_be, uint16_le}
use ebpf_packet_router.Errors.{
  Error, Flag, empty_value, invalid_value, invalid_number, invalid_address, no_such_interface,
  within_context, parsing, teid_flag, ip_flag, out_iface_flag, dmac_flag, smac_flag, teid_out_flag,
  dst_ip_flag, src_ip_flag, rate_pps_flag, q_threshold_flag, q_seconds_flag, dst_port_flag,
}
use ebpf_packet_router.Maps.Types.{FwdRule, zero_rule, zero_mac, parse_action, ip_to_uint32}
use ebpf_packet_router.Maps.Validate.{validate_rule}
use ebpf_packet_router.Cmd.Teid.{parse_hex_or_decimal}
use ebpf_packet_router.Cmd.Flags.{Interfaces, interface_by_name, optional, mac_flag, ipv4_flag}
use ebpf_packet_router.Tui.TextInput.{TextInput}
use ebpf_packet_router.Tui.Form.{Form, field_value}
use ebpf_packet_router.Tui.Form.Texts.{Target, teid_target, ueip_target, action_options}

abbrev or_invalid : Bytes → Result NumError ℕ → Result Error ℕ
or_invalid s (ok val) = ok val
or_invalid s (err e) = err (invalid_value s)

abbrev pub parse_trimmed : Bytes → Result Error ℕ
parse_trimmed [] = err empty_value
parse_trimmed (c ∷ s) = or_invalid (c ∷ s) (parse_hex_or_decimal (c ∷ s))

unfoldable pub parse_hex_or_dec : Bytes → Result Error ℕ
parse_hex_or_dec s = parse_trimmed (trim_space s)

-- `fmt.Errorf("out-iface: %w", err)`
unfoldable pub interface_field : Interfaces → Bytes → Result Error ℕ
interface_field ifaces v = elim (interface_by_name ifaces v) [
  | none ↦ err (within_context (parsing out_iface_flag) (no_such_interface v))
  | some index ↦ ok (index % 2 ^ 32)
]

unfoldable pub address_field : Flag → Bytes → Result Error ℕ
address_field flag v = elim (parse_ip v) [
  | none ↦ err (invalid_address flag v)
  | some ip ↦ wrap (within_context (parsing flag)) (ip_to_uint32 ip)
]

abbrev number : Flag → Result NumError ℕ → Result Error ℕ
number flag (ok n) = ok n
number flag (err e) = err (within_context (parsing flag) (invalid_number e))

unfoldable pub number_field : Flag → ℕ → Bytes → Result Error ℕ
number_field flag bits v = number flag (parse_uint v 10 bits)

unfoldable pub port_field : Bytes → Result Error ℕ
unfolding number_field
port_field v = do p ← number_field dst_port_flag 16 v; ok (uint16_le (put_uint16_be p))

module _ (I : TextInput) where
  open I use {value}

  -- the key of the map, which is fixed when a rule is edited
  unfoldable pub build_key : Form I → Result Error ℕ
  unfolding parse_hex_or_dec
  build_key f = elim f.editing [
    | true ↦ ok f.orig_key
    | false ↦ elim f.target [
      | teid_target ↦
          wrap (within_context (parsing teid_flag)) (parse_hex_or_dec (value f.key_input))
      | ueip_target ↦ ipv4_flag ip_flag (value f.key_input) >>= λ ip.
          wrap (within_context (parsing ip_flag)) (ip_to_uint32 ip)
    ]
  ]

  -- only rules for a TEID have a port
  abbrev pub build_port : Target → Bytes → Result Error ℕ
  build_port teid_target text = optional 0 port_field text
  build_port ueip_target text = ok 0

  -- The key and the rule, or the first error.
  unfoldable pub build_rule : Interfaces → Form I → Result Error (ℕ × FwdRule)
  unfolding build_key field_value interface_field address_field number_field port_field
  build_rule ifaces f =
      let text = field_value I f.fields in
      do
        action ← parse_action (get_or action_options f.action_idx [])
        key ← build_key f
        out_ifindex ← optional 0 (interface_field ifaces) (text (codes "Out-Iface"))
        dmac ← optional zero_mac (mac_flag dmac_flag) (text (codes "DMac"))
        smac ← optional zero_mac (mac_flag smac_flag) (text (codes "SMac"))
        teid_out ←
            optional 0 (λ v. wrap (within_context (parsing teid_out_flag)) (parse_hex_or_dec v))
              (text (codes "Teid-Out"))
        dst_ip ← optional 0 (address_field dst_ip_flag) (text (codes "Dst-IP"))
        src_ip ← optional 0 (address_field src_ip_flag) (text (codes "Src-IP"))
        rate_pps ← optional 0 (number_field rate_pps_flag 32) (text (codes "Rate-PPS"))
        threshold ← optional 0 (number_field q_threshold_flag 32) (text (codes "Q-Threshold"))
        seconds ← optional 0 (number_field q_seconds_flag 32) (text (codes "Q-Seconds"))
        dst_port ← build_port f.target (text (codes "Dst-Port"))
        let rule = record zero_rule {
          action = action;
          out_ifindex = out_ifindex;
          dmac = dmac;
          smac = smac;
          teid_out = teid_out;
          dst_ip = dst_ip;
          src_ip = src_ip;
          dst_port = dst_port;
          rate_pps = rate_pps;
          quarantine_threshold = threshold;
          quarantine_seconds = seconds;
        }
        validate_rule rule
        ok (key, rule)
