-- ===== src/Cmd/AddNat/Rule.antt =====
-- The flags of add-nat and the rule that it builds from them. The rule's NatIP is the address of
-- the subscriber, to which the destination of a downlink packet is restored.
use ebpf_packet_router.Prelude.{ℕ, Result, ok, ◌>>=◌, ◌>>◌}
use ebpf_packet_router.Std.Text.{Bytes}
use ebpf_packet_router.Std.Address.{Ip}
use ebpf_packet_router.Errors.{
  Error, nat_ip_flag, ue_ip_flag, dmac_flag, smac_flag, dst_ip_flag, src_ip_flag,
}
use ebpf_packet_router.Maps.Types.{FwdRule, zero_rule, zero_mac, action_encap_fwd, ip_to_uint32}
use ebpf_packet_router.Maps.Validate.{validate_rule}
use ebpf_packet_router.Cmd.Flags.{
  Interfaces, optional, egress_ifindex, mac_flag, address_flag, ipv4_flag,
}

pub record AddNatFlags : Type 0 where
  pub nat_ip : Bytes
  pub ue_ip : Bytes
  pub out_iface : Bytes
  pub dmac : Bytes
  pub smac : Bytes
  pub teid_out : ℕ
  pub dst_ip : Bytes
  pub src_ip : Bytes

pub record NatEntry : Type 0 where
  pub nat_ip : Ip
  pub ue_ip : Ip
  pub rule : FwdRule

-- The two addresses and the rule, or the first error.
unfoldable pub add_nat_rule : Interfaces → AddNatFlags → Result Error NatEntry
add_nat_rule ifaces flags = do
  nat_ip ← ipv4_flag nat_ip_flag flags.nat_ip
  ue_ip ← ipv4_flag ue_ip_flag flags.ue_ip
  restored ← ip_to_uint32 ue_ip
  out_ifindex ← optional 0 (egress_ifindex ifaces) flags.out_iface
  dmac ← optional zero_mac (mac_flag dmac_flag) flags.dmac
  smac ← optional zero_mac (mac_flag smac_flag) flags.smac
  dst_ip ← optional 0 (address_flag dst_ip_flag) flags.dst_ip
  src_ip ← optional 0 (address_flag src_ip_flag) flags.src_ip
  let rule = record zero_rule {
    action = action_encap_fwd;
    out_ifindex = out_ifindex;
    dmac = dmac;
    smac = smac;
    teid_out = flags.teid_out;
    dst_ip = dst_ip;
    src_ip = src_ip;
    nat_ip = restored;
  }
  validate_rule rule
  ok (record { nat_ip = nat_ip; ue_ip = ue_ip; rule = rule })
