-- ===== src/Cmd/AddUeip.antt =====
-- gtp-router/control/cmd/add_ueip.go: `gtp-ctrl add-ueip`.
pub mod Rule
pub mod Laws
use ebpf_packet_router.Prelude.{ℕ, ◌++◌, ok}
use ebpf_packet_router.Std.Text.{Bytes, codes}
use ebpf_packet_router.Std.Number.{decimal}
use ebpf_packet_router.Std.Address.{Ip, ip_string}
use ebpf_packet_router.Maps.Types.{FwdRule, action_string}
use ebpf_packet_router.Maps.Tables.Interface.{EbpfMap}
use ebpf_packet_router.Maps.Tables.Wrappers.{open_ueip_map, ueip_put}
use ebpf_packet_router.Cmd.Exec.{Kernel, Exec, lift, reads, ◌>>=◌, ◌>>◌, on_ueip_table}
use ebpf_packet_router.Cmd.Flags.{Interfaces, ipv4_text}
use ebpf_packet_router.Cmd.AddUeip.Rule.{AddUeipFlags, add_ueip_rule}

-- the line that is printed
abbrev add_ueip_line : Bytes → Ip → FwdRule → Bytes
add_ueip_line out_iface ueip rule =
    codes "OK  ueip_map["
    ++ ipv4_text ueip
    ++ codes "] = "
    ++ action_string rule.action
    ++ codes " -> "
    ++ out_iface
    ++ codes " (ifindex="
    ++ decimal rule.out_ifindex
    ++ codes ")"

module _ {E : EbpfMap FwdRule} {T : EbpfMap ℕ} where
  -- unlike add-teid and add-nat, this command leaves the devmap alone
  unfoldable pub add_ueip : Interfaces → AddUeipFlags → Exec (Kernel E T) Bytes
  add_ueip ifaces flags = do
    built ← lift (add_ueip_rule ifaces flags)
    reads (λ s. open_ueip_map E s.ueip_table)
    on_ueip_table (ueip_put E built.0 built.1)
    lift (ok (add_ueip_line flags.out_iface built.0 built.1))
