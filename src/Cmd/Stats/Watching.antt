-- ===== src/Cmd/Stats/Watching.antt =====
-- The loop of stats.go over its ticks.
use ebpf_packet_router.Prelude.{◌≡◌, refl, List, [], ◌∷◌, ◌++◌, some, ok, err}
use ebpf_packet_router.Std.Text.{Bytes}
use ebpf_packet_router.Errors.{Error}
use ebpf_packet_router.Maps.Tables.Interface.{EbpfMap}
use ebpf_packet_router.Stats.{Counters, PerCpuStat, read}
use ebpf_packet_router.Cmd.Stats.{
  Event, signal, tick, clear_screen, stopped, screen, watch_loop, watch_stats,
}

abbrev pub screens : List Counters → Bytes → Bytes
screens [] rest = rest
screens (c ∷ cs) rest = screen c ++ screens cs rest

module _ (M : EbpfMap (List PerCpuStat)) where
  open M use {Map}

  abbrev pub ticks : List Map → List (Event M) → List (Event M)
  ticks [] events = events
  ticks (m ∷ ms) events = tick m ∷ ticks ms events

  -- each tick reads the counters at its place
  abbrev pub AreRead : List Map → List Counters → Type 0
  AreRead [] [] = Unit
  AreRead [] (_ ∷ _) = ⊥
  AreRead (_ ∷ _) [] = ⊥
  AreRead (m ∷ ms) (c ∷ cs) = (read M m ≡ ok c) × AreRead ms cs

  watch_loop-ticks :
      (ms : List Map) (cs : List Counters) (events : List (Event M))
      → AreRead ms cs
      → watch_loop M (ticks ms events) ≡ record {
        printed = screens cs (watch_loop M events).printed;
        ended = (watch_loop M events).ended;
      }
  unfolding watch_loop
  watch_loop-ticks [] [] events h = refl
  watch_loop-ticks [] (c ∷ cs) events h = elim h [ ]
  watch_loop-ticks (m ∷ ms) [] events h = elim h [ ]
  watch_loop-ticks (m ∷ ms) (c ∷ cs) events (h, t) = rw (h, watch_loop-ticks ms cs events t) refl

  -- If the reads at the first ticks succeed, then with a signal behind them the watch clears the
  -- screen, prints the counters that each tick read, in their order, and the line that it has
  -- stopped, and ends without an error; with a tick behind them whose read fails, it prints these
  -- counters and ends with the error of the read. What comes later is not read.
  pub watch_stats-ticks :
      (ms : List Map) (cs : List Counters) (m : Map) (e : Error) (events : List (Event M))
      → AreRead ms cs
      → read M m ≡ err e
      → (watch_stats M (ticks ms (signal ∷ events))
          ≡ record { printed = clear_screen ++ screens cs stopped; ended = some (ok tt) })
        × (watch_stats M (ticks ms (tick m ∷ events))
            ≡ record { printed = clear_screen ++ screens cs []; ended = some (err e) })
  unfolding watch_stats watch_loop
  watch_stats-ticks ms cs m e events h fails = (
    rw (watch_loop-ticks ms cs (signal ∷ events) h) refl,
    rw (watch_loop-ticks ms cs (tick m ∷ events) h, fails) refl,
  )
