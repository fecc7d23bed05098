-- ===== src/Examples/Commands.antt =====
-- The sub-commands on the tables of Data.
use ebpf_packet_router.Prelude.{ℕ, ◌≡◌, refl, true, some, none, value?, succeeded}
use ebpf_packet_router.Std.Text.{codes, trim_space}
use ebpf_packet_router.Std.Strconv.{parse_uint}
use ebpf_packet_router.Std.Binary.{uint32_be}
use ebpf_packet_router.Std.Mac.{net_parse_mac}
use ebpf_packet_router.Std.Address.{parse_ip, parse_ipv4, to4}
use ebpf_packet_router.Maps.Validate.{validate_rule}
use ebpf_packet_router.Maps.Tables.GoMap.{find, assign}
use ebpf_packet_router.Cmd.Teid.{parse_teid, parse_hex_or_decimal}
use ebpf_packet_router.Cmd.Flags.{egress_ifindex, mac_flag, address_flag}
use ebpf_packet_router.Cmd.AddTeid.Rule.{add_teid_rule}
use ebpf_packet_router.Maps.Types.{FwdRule, parse_action, parse_mac, ip_to_uint32}
use ebpf_packet_router.Maps.Tables.Wrappers.{
  view, open_teid_map, teid_put, teid_delete, ensure_tx_port,
}
use ebpf_packet_router.Cmd.AddTeid.{add_teid}
use ebpf_packet_router.Cmd.AddTeid.Laws as AddTeidLaws
use ebpf_packet_router.Cmd.AddUeip.{add_ueip}
use ebpf_packet_router.Cmd.AddUeip.Laws as AddUeipLaws
use ebpf_packet_router.Cmd.AddNat.{add_nat}
use ebpf_packet_router.Cmd.AddNat.Laws as AddNatLaws
use ebpf_packet_router.Cmd.Delete.{del_teid, del_ueip, del_nat}
use ebpf_packet_router.Cmd.Delete.Laws.{
  TeidOutcome, UeipOutcome, NatOutcome, del_teid-TeidOutcome, del_ueip-UeipOutcome,
  del_nat-NatOutcome,
}
use ebpf_packet_router.Examples.TableMap.{table_maps}
use ebpf_packet_router.Examples.Data.{
  interfaces, kernel, add_teid_flags, add_ueip_flags, add_nat_flags,
}

add_teid-Outcome_example :
    AddTeidLaws.Outcome interfaces add_teid_flags kernel
      (add_teid interfaces add_teid_flags kernel).0
      (add_teid interfaces add_teid_flags kernel).1
add_teid-Outcome_example = AddTeidLaws.add_teid-Outcome interfaces add_teid_flags kernel

add_ueip-Outcome_example :
    AddUeipLaws.Outcome interfaces add_ueip_flags kernel
      (add_ueip interfaces add_ueip_flags kernel).0
      (add_ueip interfaces add_ueip_flags kernel).1
add_ueip-Outcome_example = AddUeipLaws.add_ueip-Outcome interfaces add_ueip_flags kernel

add_nat-Outcome_example :
    AddNatLaws.Outcome interfaces add_nat_flags kernel
      (add_nat interfaces add_nat_flags kernel).0
      (add_nat interfaces add_nat_flags kernel).1
add_nat-Outcome_example = AddNatLaws.add_nat-Outcome interfaces add_nat_flags kernel

del_teid-TeidOutcome_example :
    TeidOutcome
      (codes "0xDEAD")
      kernel
      (del_teid (codes "0xDEAD") kernel).0
      (del_teid (codes "0xDEAD") kernel).1
del_teid-TeidOutcome_example = del_teid-TeidOutcome (codes "0xDEAD") kernel

del_ueip-UeipOutcome_example :
    UeipOutcome
      (codes "10.1.0.2")
      kernel
      (del_ueip (codes "10.1.0.2") kernel).0
      (del_ueip (codes "10.1.0.2") kernel).1
del_ueip-UeipOutcome_example = del_ueip-UeipOutcome (codes "10.1.0.2") kernel

del_nat-NatOutcome_example :
    NatOutcome
      (codes "10.0.0.5")
      kernel
      (del_nat (codes "10.0.0.5") kernel).0
      (del_nat (codes "10.0.0.5") kernel).1
del_nat-NatOutcome_example = del_nat-NatOutcome (codes "10.0.0.5") kernel

-- add-teid on these flags succeeds and provisions the port, and del-teid takes a rule out again
added :
    (succeeded (add_teid interfaces add_teid_flags kernel).0 ≡ true)
    × (value? ((table_maps ℕ).lookup 4 (add_teid interfaces add_teid_flags kernel).1.ports)
        ≡ some 4)
unfolding add_teid add_teid_rule parse_teid parse_hex_or_decimal trim_space parse_uint parse_action
    egress_ifindex mac_flag parse_mac net_parse_mac address_flag parse_ip parse_ipv4 ip_to_uint32
    to4 uint32_be validate_rule open_teid_map teid_put ensure_tx_port find assign
added = (refl, refl)

removed : view (table_maps FwdRule) (del_teid (codes "57005") kernel).1.teid_table 0xDEAD ≡ none
unfolding del_teid find parse_teid parse_hex_or_decimal trim_space parse_uint open_teid_map
    teid_delete
removed = refl
