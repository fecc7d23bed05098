-- ===== src/Tui/Dashboard/Defaults.antt =====
-- addDefaultRules of dashboard.go.
use ebpf_packet_router.Prelude.{ℕ, [], Option, none, some}
use ebpf_packet_router.Std.Text.{codes}
use ebpf_packet_router.Std.Address.{Ip, parse_ip}
use ebpf_packet_router.Maps.Types.{FwdRule, zero_rule, action_drop}
use ebpf_packet_router.Maps.Tables.Interface.{EbpfMap}
use ebpf_packet_router.Maps.Tables.Wrappers.{teid_put, ueip_put}
use ebpf_packet_router.Cmd.Exec.{Kernel, Exec, ◌>>◌, on_teid_table, on_ueip_table}

abbrev pub drop_rule : FwdRule
drop_rule = record zero_rule { action = action_drop }

abbrev pub quarantine_rule : FwdRule
quarantine_rule = record zero_rule {
  action = action_drop;
  rate_pps = 5;
  quarantine_threshold = 3;
  quarantine_seconds = 30;
}

abbrev pub capped_rule : FwdRule
capped_rule = record zero_rule { action = action_drop; rate_pps = 10 }

-- a nil address is empty
abbrev or_nil : Option Ip → Ip
or_nil none = []
or_nil (some ip) = ip

abbrev pub default_ueip : Ip
default_ueip = or_nil (parse_ip (codes "10.45.0.99"))

unfoldable pub add_default_rules :
    {E : EbpfMap FwdRule} {T : EbpfMap ℕ} → Exec (Kernel E T) (Unit {0})
add_default_rules {E} = do
  on_teid_table (teid_put E 0xDEAD drop_rule)
  on_teid_table (teid_put E 0xBEEF quarantine_rule)
  on_ueip_table (ueip_put E default_ueip capped_rule)
