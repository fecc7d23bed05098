-- ===== src/Cmd/AddNat.antt =====
-- gtp-router/control/cmd/add_nat.go: `gtp-ctrl add-nat`.
pub mod Rule
pub mod Laws
use ebpf_packet_router.Prelude.{ℕ, ◌++◌, ok}
use ebpf_packet_router.Std.Text.{Bytes, codes}
use ebpf_packet_router.Std.Number.{decimal, hex8}
use ebpf_packet_router.Std.Address.{Ip}
use ebpf_packet_router.Maps.Types.{FwdRule}
use ebpf_packet_router.Maps.Tables.Interface.{EbpfMap}
use ebpf_packet_router.Maps.Tables.Wrappers.{open_nat_map, nat_put, ensure_tx_port}
use ebpf_packet_router.Cmd.Exec.{Kernel, Exec, lift, reads, ◌>>=◌, ◌>>◌, on_nat_table, on_ports}
use ebpf_packet_router.Cmd.Flags.{Interfaces, ipv4_text}
use ebpf_packet_router.Cmd.AddNat.Rule.{AddNatFlags, NatEntry, add_nat_rule}

-- the line that is printed
abbrev add_nat_line : NatEntry → Bytes
add_nat_line built =
    codes "OK  nat_map["
    ++ ipv4_text built.nat_ip
    ++ codes "] -> ue="
    ++ ipv4_text built.ue_ip
    ++ codes " teid=0x"
    ++ hex8 built.rule.teid_out
    ++ codes " ifindex="
    ++ decimal built.rule.out_ifindex

module _ {E : EbpfMap FwdRule} {T : EbpfMap ℕ} where
  unfoldable pub add_nat : Interfaces → AddNatFlags → Exec (Kernel E T) Bytes
  add_nat ifaces flags = do
    built ← lift (add_nat_rule ifaces flags)
    reads (λ s. open_nat_map E s.nat_table)
    on_nat_table (nat_put E built.nat_ip built.rule)
    on_ports (ensure_tx_port T built.rule.out_ifindex)
    lift (ok (add_nat_line built))
