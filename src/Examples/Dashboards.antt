-- ===== src/Examples/Dashboards.antt =====
-- The rows, the tables and the commands of the dashboard, and the watch of the counters.
use ebpf_packet_router.Prelude.{
  ℕ, ◌+◌, ◌≡◌, ◌↔◌, refl, arith, true, false, List, [], ◌∷◌, ◌++◌, none, some, ok, err, pos, length,
}
use ebpf_packet_router.Std.Text.{codes, has_prefix}
use ebpf_packet_router.Errors.{Error, map_failure, map_error, opening, stats_map, within_context}
use ebpf_packet_router.Maps.Types.{FwdRule}
use ebpf_packet_router.Maps.Validate.Laws.{IsComplete}
use ebpf_packet_router.Maps.Tables.GoMap.{find, HasKeysOnce}
use ebpf_packet_router.Stats.{PerCpuStat, Counters, read}
use ebpf_packet_router.Stats.Laws.{total_of, read_from_map-sums}
use ebpf_packet_router.Cmd.Listing.{quarantine_status}
use ebpf_packet_router.Cmd.Listing.Rows.{IsListed}
use ebpf_packet_router.Cmd.Stats.{signal, tick, clear_screen, stopped, watch_stats}
use ebpf_packet_router.Cmd.Stats.Watching.{screens, ticks, watch_stats-ticks}
use ebpf_packet_router.Tui.Dashboard.State.{Host, Machine, fetch, tick_after, batch}
use ebpf_packet_router.Tui.Dashboard.Rows.{
  format_teid, rule_row, build_rows, enforcement_state, enforcement_rows,
}
use ebpf_packet_router.Tui.Dashboard.Rows.Policed.{
  IsEnforcement, build_rows-IsListed, enforcement_rows-IsEnforcement,
}
use ebpf_packet_router.Tui.Dashboard.Rows.Held.{enforcement_state-quarantine_status}
use ebpf_packet_router.Tui.Dashboard.Table.{columns_for, write_row}
use ebpf_packet_router.Tui.Dashboard.Table.Lines.{columns_for-misaligned}
use ebpf_packet_router.Tui.Dashboard.Defaults.{
  drop_rule, quarantine_rule, capped_rule, add_default_rules,
}
use ebpf_packet_router.Tui.Dashboard.Writing.{DefaultsOutcome, add_default_rules-Outcome}
use ebpf_packet_router.Tui.Dashboard.Commands.{run_command}
use ebpf_packet_router.Tui.Dashboard.Commands.Current.{Ran, run_command-Ran}
use ebpf_packet_router.Examples.TableMap.{TableMap, table_maps}
use ebpf_packet_router.Examples.Inputs.{text_inputs}
use ebpf_packet_router.Examples.Floats.{whole_floats}
use ebpf_packet_router.Examples.Data.{
  interfaces, kernel, limited_rule, tunnel_rule, counters, busy, idle,
}

abbrev pub host : Host
host = record {
  ifaces = interfaces;
  now = 5000000000;
  clock = λ table key. some (90, 500);
  date_text = λ t. [];
  clock_text = λ t. [];
  duration_text = λ d. [];
  run_command = λ argv. none;
  write_file = λ path content. none;
}

abbrev pub machine : Machine (table_maps FwdRule) (table_maps ℕ) (table_maps (List PerCpuStat))
machine = record { tables = kernel; stats_table = counters; commands = [] }

abbrev pub teid_rules : List (ℕ × FwdRule)
teid_rules = (0xDEAD, limited_rule) ∷ (7, tunnel_rule) ∷ []

abbrev pub ueip_rules : List (ℕ × FwdRule)
ueip_rules = (0x0A010002, tunnel_rule) ∷ []

pub teid_rules-HasKeysOnce : HasKeysOnce teid_rules
teid_rules-HasKeysOnce = (((λ e. omega arith), tt), (tt, tt))

pub ueip_rules-HasKeysOnce : HasKeysOnce ueip_rules
ueip_rules-HasKeysOnce = (tt, tt)

build_rows-IsListed_example :
    IsListed
      (λ k. find k teid_rules)
      (rule_row whole_floats format_teid ueip_rules 2 true)
      (build_rows whole_floats teid_rules ueip_rules 2 true format_teid).0
      (build_rows whole_floats teid_rules ueip_rules 2 true format_teid).1
build_rows-IsListed_example =
    build_rows-IsListed whole_floats teid_rules ueip_rules 2 true format_teid teid_rules-HasKeysOnce

enforcement_rows-IsEnforcement_example :
    IsEnforcement host.clock teid_rules ueip_rules
      (enforcement_rows host.clock teid_rules ueip_rules)
enforcement_rows-IsEnforcement_example =
    enforcement_rows-IsEnforcement host.clock teid_rules ueip_rules teid_rules-HasKeysOnce
      ueip_rules-HasKeysOnce

enforcement_state-quarantine_status_example :
    (enforcement_state 5 (record limited_rule { quarantine_until_ns = 6 }) ≡ codes "HELD") ↔ (
      has_prefix
        (quarantine_status 5 (record limited_rule { quarantine_until_ns = 6 }))
        (codes "YES")
      ≡ true)
enforcement_state-quarantine_status_example =
    enforcement_state-quarantine_status 5 (record limited_rule { quarantine_until_ns = 6 })

columns_for-misaligned_example :
    length (
      write_row
        (10 ∷ 10 ∷ 5 ∷ 8 ∷ 7 ∷ [])
        (codes "  ")
        (codes "TEID" ∷ codes "ACTION" ∷ codes "IFINDEX" ∷ codes "PACKETS" ∷ codes "PPS" ∷ []))
    ≡ length (write_row (10 ∷ 10 ∷ 5 ∷ 8 ∷ 7 ∷ []) (codes "> ") (codes "0x00000007" ∷ [])) + 2
unfolding columns_for
columns_for-misaligned_example =
    columns_for-misaligned 60 10 (codes "TEID") refl (omega arith) (codes "> ")
      (codes "0x00000007" ∷ []) refl (omega arith, tt)

add_default_rules-Outcome_example :
    DefaultsOutcome kernel (add_default_rules kernel).0 (add_default_rules kernel).1
    × (IsComplete drop_rule × IsComplete quarantine_rule × IsComplete capped_rule)
add_default_rules-Outcome_example = add_default_rules-Outcome kernel

run_command-Ran_example :
    Ran host text_inputs
      (batch fetch (tick_after (pos 1000000000)))
      machine
      (run_command text_inputs host (batch fetch (tick_after (pos 1000000000))) machine).0
      (run_command text_inputs host (batch fetch (tick_after (pos 1000000000))) machine).1
run_command-Ran_example =
    run_command-Ran host text_inputs (batch fetch (tick_after (pos 1000000000))) machine

abbrev totals : Counters
totals = record { pass = total_of busy; drop = total_of idle; redirect = total_of busy }

counters_are : read (table_maps (List PerCpuStat)) counters ≡ ok totals
unfolding read find
counters_are =
    read_from_map-sums (table_maps (List PerCpuStat)) counters busy idle busy refl refl refl

abbrev unpinned : TableMap (List PerCpuStat)
unpinned = record counters { pinned = false }

abbrev not_open : Error
not_open = within_context (opening stats_map) (map_error (map_failure 2))

unpinned_fails : read (table_maps (List PerCpuStat)) unpinned ≡ err not_open
unfolding read
unpinned_fails = refl

watch_stats-ticks_example :
    (watch_stats
        (table_maps (List PerCpuStat))
        (ticks (table_maps (List PerCpuStat)) (counters ∷ []) (signal ∷ []))
      ≡ record { printed = clear_screen ++ screens (totals ∷ []) stopped; ended = some (ok tt) })
    × (watch_stats
          (table_maps (List PerCpuStat))
          (ticks (table_maps (List PerCpuStat)) (counters ∷ []) (tick unpinned ∷ []))
        ≡ record {
          printed = clear_screen ++ screens (totals ∷ []) [];
          ended = some (err not_open);
        })
watch_stats-ticks_example =
    watch_stats-ticks (table_maps (List PerCpuStat)) (counters ∷ []) (totals ∷ []) unpinned not_open
      [] (counters_are, tt) unpinned_fails
