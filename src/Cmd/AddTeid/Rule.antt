-- ===== src/Cmd/AddTeid/Rule.antt =====
-- The flags of add-teid and the rule that it builds from them.
use ebpf_packet_router.Prelude.{ℕ, Result, ok, ◌>>=◌, ◌>>◌}
use ebpf_packet_router.Std.Text.{Bytes}
use ebpf_packet_router.Errors.{Error, dmac_flag, smac_flag, dst_ip_flag, src_ip_flag, nat_ip_flag}
use ebpf_packet_router.Maps.Types.{FwdRule, zero_rule, zero_mac, parse_action}
use ebpf_packet_router.Maps.Validate.{validate_rule}
use ebpf_packet_router.Cmd.Teid.{parse_teid}
use ebpf_packet_router.Cmd.Flags.{
  Interfaces, optional, egress_ifindex, mac_flag, address_flag, network_port,
}

pub record AddTeidFlags : Type 0 where
  pub teid : Bytes
  pub action : Bytes
  pub out_iface : Bytes
  pub dmac : Bytes
  pub smac : Bytes
  pub dst_ip : Bytes
  pub src_ip : Bytes
  pub teid_out : ℕ
  pub dst_port : ℕ
  pub nat_ip : Bytes
  pub rate_pps : ℕ
  pub quarantine_threshold : ℕ
  pub quarantine_seconds : ℕ

-- The TEID and the rule, or the first error.
unfoldable pub add_teid_rule : Interfaces → AddTeidFlags → Result Error (ℕ × FwdRule)
add_teid_rule ifaces flags = do
  teid ← parse_teid flags.teid
  action ← parse_action flags.action
  out_ifindex ← optional 0 (egress_ifindex ifaces) flags.out_iface
  dmac ← optional zero_mac (mac_flag dmac_flag) flags.dmac
  smac ← optional zero_mac (mac_flag smac_flag) flags.smac
  dst_ip ← optional 0 (address_flag dst_ip_flag) flags.dst_ip
  src_ip ← optional 0 (address_flag src_ip_flag) flags.src_ip
  nat_ip ← optional 0 (address_flag nat_ip_flag) flags.nat_ip
  let rule = record zero_rule {
    action = action;
    out_ifindex = out_ifindex;
    dmac = dmac;
    smac = smac;
    teid_out = flags.teid_out;
    dst_ip = dst_ip;
    src_ip = src_ip;
    dst_port = network_port flags.dst_port;
    nat_ip = nat_ip;
    rate_pps = flags.rate_pps;
    quarantine_threshold = flags.quarantine_threshold;
    quarantine_seconds = flags.quarantine_seconds;
  }
  validate_rule rule
  ok (teid, rule)
