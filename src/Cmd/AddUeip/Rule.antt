-- ===== src/Cmd/AddUeip/Rule.antt =====
-- The flags of add-ueip and the rule that it builds from them.
use ebpf_packet_router.Prelude.{ℕ, none, some, Result, ok, err, ◌>>=◌, ◌>>◌}
use ebpf_packet_router.Std.Text.{Bytes}
use ebpf_packet_router.Std.Address.{Ip, parse_ip, to4}
use ebpf_packet_router.Errors.{
  Error, ip_flag, dmac_flag, smac_flag, dst_ip_flag, src_ip_flag, invalid_address, only_ipv4_ue,
}
use ebpf_packet_router.Maps.Types.{FwdRule, zero_rule, zero_mac, parse_action}
use ebpf_packet_router.Maps.Validate.{validate_rule}
use ebpf_packet_router.Cmd.Flags.{Interfaces, optional, egress_ifindex, mac_flag, address_flag}

pub record AddUeipFlags : Type 0 where
  pub ip : Bytes
  pub action : Bytes
  pub out_iface : Bytes
  pub dmac : Bytes
  pub smac : Bytes
  pub teid_out : ℕ
  pub dst_ip : Bytes
  pub src_ip : Bytes
  pub rate_pps : ℕ
  pub quarantine_threshold : ℕ
  pub quarantine_seconds : ℕ

-- the address of the subscriber
unfoldable pub parse_ueip : Bytes → Result Error Ip
parse_ueip s = elim (parse_ip s) [
  | none ↦ err (invalid_address ip_flag s)
  | some ip ↦ elim (to4 ip) [ none ↦ err only_ipv4_ue | some _ ↦ ok ip ]
]

-- The address and the rule, or the first error.
unfoldable pub add_ueip_rule : Interfaces → AddUeipFlags → Result Error (Ip × FwdRule)
add_ueip_rule ifaces flags = do
  ueip ← parse_ueip flags.ip
  action ← parse_action flags.action
  out_ifindex ← optional 0 (egress_ifindex ifaces) flags.out_iface
  dmac ← optional zero_mac (mac_flag dmac_flag) flags.dmac
  smac ← optional zero_mac (mac_flag smac_flag) flags.smac
  dst_ip ← optional 0 (address_flag dst_ip_flag) flags.dst_ip
  src_ip ← optional 0 (address_flag src_ip_flag) flags.src_ip
  let rule = record zero_rule {
    action = action;
    out_ifindex = out_ifindex;
    dmac = dmac;
    smac = smac;
    teid_out = flags.teid_out;
    dst_ip = dst_ip;
    src_ip = src_ip;
    rate_pps = flags.rate_pps;
    quarantine_threshold = flags.quarantine_threshold;
    quarantine_seconds = flags.quarantine_seconds;
  }
  validate_rule rule
  ok (ueip, rule)
