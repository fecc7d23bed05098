-- ===== src/Cmd/Stats.antt =====
-- gtp-router/control/cmd/stats.go: the sub-command that prints the verdict counters, once or at
-- every tick until a signal.
pub mod Watching
use ebpf_packet_router.Prelude.{
  ℕ, ◌≡◌, refl, ap, Bool, List, [], ◌∷◌, ◌++◌, Option, none, some, Result, ok, err, All,
  if◌then◌else◌,
}
use ebpf_packet_router.Std.Text.{Bytes, codes, newline}
use ebpf_packet_router.Std.Number.{decimal}
use ebpf_packet_router.Std.Pad.{pad_right, pad_left}
use ebpf_packet_router.Errors.{Error}
use ebpf_packet_router.Maps.Tables.Interface.{EbpfMap}
use ebpf_packet_router.Stats.{Counters, VerdictStat, PerCpuStat, format_bytes, read}

-- "%-12s  %12s  %12s\n"
abbrev pub counter_line : Bytes → Bytes → Bytes → Bytes
unfolding pad_right pad_left
counter_line verdict packets bytes =
    pad_right 12 verdict
    ++ (codes "  " ++ (pad_left 12 packets ++ (codes "  " ++ (pad_left 12 bytes ++ newline))))

abbrev pub verdict_line : Bytes → VerdictStat → Bytes
verdict_line verdict s = counter_line verdict (decimal s.packets) (format_bytes s.bytes)

unfoldable pub print_counters : Counters → Bytes
print_counters c =
    counter_line (codes "VERDICT") (codes "PACKETS") (codes "BYTES")
    ++ (counter_line (codes "-------") (codes "-------") (codes "-----")
        ++ (verdict_line (codes "PASS") c.pass
            ++ (verdict_line (codes "DROP") c.drop ++ verdict_line (codes "REDIRECT") c.redirect)))

-- ESC [ H, and ESC [ 2 J behind it
abbrev pub cursor_home : Bytes
cursor_home = 27 ∷ codes "[H"

abbrev pub clear_screen : Bytes
clear_screen = cursor_home ++ (27 ∷ codes "[2J")

unfoldable pub screen : Counters → Bytes
unfolding print_counters
screen c =
    cursor_home
    ++ (codes "GTP-U XDP Router - stats  (Ctrl-C to stop)"
        ++ (newline ++ (newline ++ print_counters c)))

abbrev pub stopped : Bytes
stopped = newline ++ (codes "stopped" ++ newline)

module _ (M : EbpfMap (List PerCpuStat)) where
  open M use {Map}

  -- what the loop receives: SIGINT or SIGTERM, or a tick, when the counters are read from the table
  -- as it is then
  pub data Event : Type 0 where
    signal : Event
    tick : Map → Event

  -- what is printed, and how the loop has ended, if it has
  pub record Watched : Type 0 where
    pub printed : Bytes
    pub ended : Option (Result Error (Unit {0}))

  abbrev pub shown : Result Error Counters → Watched → Watched
  shown (ok c) rest = record { printed = screen c ++ rest.printed; ended = rest.ended }
  shown (err e) rest = record { printed = []; ended = some (err e) }

  -- the loop of `watchStats`
  unfoldable pub watch_loop : List Event → Watched
  unfolding read screen
  watch_loop [] = record { printed = []; ended = none }
  watch_loop (signal ∷ events) = record { printed = stopped; ended = some (ok tt) }
  watch_loop (tick m ∷ events) = shown (read M m) (watch_loop events)

  unfoldable pub watch_stats : List Event → Watched
  unfolding watch_loop
  watch_stats events = record {
    printed = clear_screen ++ (watch_loop events).printed;
    ended = (watch_loop events).ended;
  }

  abbrev pub printed_once : Result Error Counters → Watched
  printed_once (ok c) = record { printed = print_counters c; ended = some (ok tt) }
  printed_once (err e) = record { printed = []; ended = some (err e) }

  unfoldable pub print_stats : Map → Watched
  unfolding read print_counters
  print_stats m = printed_once (read M m)

  -- RunE
  unfoldable pub stats_cmd : Bool → Map → List Event → Watched
  unfolding watch_stats print_stats
  stats_cmd watch m events = if watch then watch_stats events else print_stats m
