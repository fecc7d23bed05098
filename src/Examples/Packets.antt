-- ===== src/Examples/Packets.antt =====
-- Packets against the rate cap and the quarantine.
use ebpf_packet_router.Prelude.{
  ℕ, ◌+◌, ◌-◌, ◌*◌, ◌≤◌, ◌≡◌, refl, true, arith, List, [], ◌∷◌, ◌++◌, length,
}
use Prim.Native.Nat.{min}
use ebpf_packet_router.Maps.Types.{FwdRule}
use ebpf_packet_router.Policy.{second_ns, enforce_policy}
use ebpf_packet_router.Policy.Laws.{IsPoliced}
use ebpf_packet_router.Policy.Windows.{run, run-IsPoliced, run_window}
use ebpf_packet_router.Policy.Windows.Quarantine.{windows, run_capped, run_quarantine_cycle, IsHeld}
use ebpf_packet_router.Policy.Windows.Escalation.{overruns, run-overruns}
use ebpf_packet_router.Std.Text.{codes, has_prefix}
use ebpf_packet_router.Std.Number.{decimal}
use ebpf_packet_router.Cmd.Listing.{quarantine_status}
use ebpf_packet_router.Cmd.Listing.Rows.{run-quarantine_status}
use ebpf_packet_router.Examples.Data.{limited_rule}

-- the rule in a window that began at 5 seconds
abbrev started : FwdRule
started = record limited_rule { window_start_ns = 5 * second_ns }

-- the rule in quarantine until 70 seconds
abbrev held : FwdRule
held = record limited_rule {
  window_start_ns = 10 * second_ns;
  quarantine_until_ns = 70 * second_ns;
}

abbrev burst : List ℕ
burst = 5000000001 ∷ 5000000002 ∷ 5000000003 ∷ []

started-IsPoliced : IsPoliced started
started-IsPoliced = ground arith

burst_passed : (run started burst).1 ≡ 2
unfolding run enforce_policy
burst_passed = refl

run_capped_example :
    (run started burst).1
    ≤ (started.rate_pps - started.window_count) + started.rate_pps * windows started burst
run_capped_example = run_capped started burst (omega arith) started-IsPoliced

run_window_example :
    (run started burst).1 ≡ min (started.rate_pps - started.window_count) (length burst)
run_window_example =
    run_window started burst started-IsPoliced (ground arith, (ground arith, (ground arith, tt)))

run_quarantine_cycle_example :
    ((run held (burst ++ 70 * second_ns ∷ [])).1 ≡ 1)
    × ((run held (burst ++ 70 * second_ns ∷ [])).0.quarantine_until_ns ≡ 0)
run_quarantine_cycle_example =
    run_quarantine_cycle held burst (70 * second_ns) (ground arith)
      (omega arith, (omega arith, (omega arith, tt))) (omega arith) (omega arith)

run-IsPoliced_example : IsPoliced (run started burst).0
run-IsPoliced_example = run-IsPoliced started burst started-IsPoliced

-- three packets at each of three times, with a pause of an hour before the last
run-overruns_example :
    IsHeld (run limited_rule (overruns 1 2 60 (1000000000 ∷ 2000000000 ∷ 3602000000000 ∷ []))).0
    × ((run limited_rule
          (overruns 1 2 60 (1000000000 ∷ 2000000000 ∷ 3602000000000 ∷ []))).0.quarantine_until_ns
        ≡ 3602000000000 + 60 * second_ns)
run-overruns_example =
    run-overruns 1 2 60 (ground arith) limited_rule (1000000000 ∷ 2000000000 ∷ []) 3602000000000
      (ground arith) (omega arith, (omega arith, (omega arith, tt))) refl (omega arith)

says_yes : has_prefix (quarantine_status (69 * second_ns) held) (codes "YES") ≡ true
unfolding quarantine_status has_prefix decimal
says_yes = refl

run-quarantine_status_example : run held burst ≡ (held, 0)
run-quarantine_status_example =
    run-quarantine_status (69 * second_ns) held burst says_yes
      (omega arith, (omega arith, (omega arith, tt)))
