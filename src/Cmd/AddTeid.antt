-- ===== src/Cmd/AddTeid.antt =====
-- gtp-router/control/cmd/add_teid.go: `gtp-ctrl add-teid`.
pub mod Rule
pub mod Laws
use ebpf_packet_router.Prelude.{ℕ, ◌++◌, ok}
use ebpf_packet_router.Std.Text.{Bytes, codes}
use ebpf_packet_router.Std.Number.{decimal, hex8}
use ebpf_packet_router.Maps.Types.{FwdRule, action_string}
use ebpf_packet_router.Maps.Tables.Interface.{EbpfMap}
use ebpf_packet_router.Maps.Tables.Wrappers.{open_teid_map, teid_put, ensure_tx_port}
use ebpf_packet_router.Cmd.Exec.{Kernel, Exec, lift, reads, ◌>>=◌, ◌>>◌, on_teid_table, on_ports}
use ebpf_packet_router.Cmd.Flags.{Interfaces}
use ebpf_packet_router.Cmd.AddTeid.Rule.{AddTeidFlags, add_teid_rule}

-- the line that is printed
abbrev add_teid_line : Bytes → ℕ → FwdRule → Bytes
add_teid_line out_iface teid rule =
    codes "OK  teid_map[0x"
    ++ hex8 teid
    ++ codes "] = "
    ++ action_string rule.action
    ++ codes " -> "
    ++ out_iface
    ++ codes " (ifindex="
    ++ decimal rule.out_ifindex
    ++ codes ")"

module _ {E : EbpfMap FwdRule} {T : EbpfMap ℕ} where
  unfoldable pub add_teid : Interfaces → AddTeidFlags → Exec (Kernel E T) Bytes
  add_teid ifaces flags = do
    built ← lift (add_teid_rule ifaces flags)
    reads (λ s. open_teid_map E s.teid_table)
    on_teid_table (teid_put E built.0 built.1)
    on_ports (ensure_tx_port T built.1.out_ifindex)
    lift (ok (add_teid_line flags.out_iface built.0 built.1))
