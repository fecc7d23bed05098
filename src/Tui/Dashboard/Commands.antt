-- ===== src/Tui/Dashboard/Commands.antt =====
-- What the commands of dashboard.go do, and the messages that they send back.
pub mod Current
use ebpf_packet_router.Prelude.{
  ℕ, true, false, List, [], ◌∷◌, ◌++◌, Option, none, some, Result, ok, wrap, ◌>>=◌,
}
use ebpf_packet_router.Std.Text.{Bytes, codes}
use ebpf_packet_router.Errors.{Error, fetching, within_context, teid_map, ueip_map, stats_map}
use ebpf_packet_router.Maps.Types.{FwdRule}
use ebpf_packet_router.Maps.Tables.Interface.{EbpfMap}
use ebpf_packet_router.Maps.Tables.Wrappers.{teid_list, ueip_list}
use ebpf_packet_router.Stats.{PerCpuStat, read}
use ebpf_packet_router.Tui.TextInput.{TextInput}
use ebpf_packet_router.Tui.Dashboard.State.{
  Host, Machine, Snapshot, Command, no_command, fetch, quit, tick_after, batch, start_ping,
  stop_ping, copy, Msg, ping_toggled, copy_result, tick_msg, data_msg,
}

abbrev pub ping_log_path : Bytes
ping_log_path = codes "/tmp/gtp-lab-ping.log"

abbrev pub snapshot_path : Bytes
snapshot_path = codes "/tmp/gtp-dashboard-snapshot.txt"

abbrev ping_script : Bytes → Bytes → Bytes → Bytes → Bytes
ping_script ns interval size target =
    codes "ip netns exec "
    ++ (ns
        ++ (codes " ping -i "
            ++ (interval
                ++ (codes " -s "
                    ++ (size
                        ++ (codes " "
                            ++ (target ++ (codes " >" ++ (ping_log_path ++ codes " 2>&1 &")))))))))

abbrev pub start_argv : Bytes → Bytes → Bytes → Bytes → List Bytes
start_argv ns interval size target =
    codes "bash" ∷ codes "-c" ∷ ping_script ns interval size target ∷ []

abbrev pub stop_argv : Bytes → List Bytes
stop_argv target = codes "pkill" ∷ codes "-f" ∷ (codes "ping -i .* " ++ target) ∷ []

module _ (I : TextInput) where
  abbrev pub ping_message : Option Bytes → Msg I
  ping_message none = ping_toggled true none
  ping_message (some e) = ping_toggled false (some e)

  abbrev pub copy_message : Option Bytes → Msg I
  copy_message none = copy_result snapshot_path none
  copy_message (some e) = copy_result [] (some e)

module _ {E : EbpfMap FwdRule} {T : EbpfMap ℕ} {M : EbpfMap (List PerCpuStat)} where
  -- the function of `fetchCmd`
  unfoldable pub fetch_snapshot : Host → Machine E T M → Result Error Snapshot
  fetch_snapshot host s = do
    teids ← wrap (within_context (fetching teid_map)) (teid_list E s.tables.teid_table)
    ueips ← wrap (within_context (fetching ueip_map)) (ueip_list E s.tables.ueip_table)
    c ← wrap (within_context (fetching stats_map)) (read M s.stats_table)
    ok (record { teid = teids; ueip = ueips; counters = c; fetched_at = host.now })

  abbrev pub ran : List Bytes → Machine E T M → Machine E T M
  ran argv s = record s { commands = argv ∷ s.commands }

  -- `stopPingSync`
  unfoldable pub stop_ping_sync : Bytes → Machine E T M → Machine E T M
  stop_ping_sync target s = ran (stop_argv target) s

  module _ (I : TextInput) where
    -- the messages of a command, in some order for a batch, and what it leaves
    unfoldable pub run_command : Host → Command → Machine E T M → List (Msg I) × Machine E T M
    unfolding fetch_snapshot stop_ping_sync
    run_command host no_command s = ([], s)
    run_command host quit s = ([], s)
    run_command host fetch s = (data_msg (fetch_snapshot host s) ∷ [], s)
    run_command host (tick_after interval) s = (tick_msg ∷ [], s)
    run_command host (batch c1 c2) s =
        let (msgs1, s1) = run_command host c1 s in
        let (msgs2, s2) = run_command host c2 s1 in (msgs1 ++ msgs2, s2)
    run_command host (start_ping ns interval size target) s =
        let argv = start_argv ns interval size target in
        (ping_message I (host.run_command argv) ∷ [], ran argv s)
    run_command host (stop_ping target) s = (ping_toggled false none ∷ [], stop_ping_sync target s)
    run_command host (copy content) s =
        (copy_message I (host.write_file snapshot_path content) ∷ [], s)
