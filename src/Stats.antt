-- ===== src/Stats.antt =====
-- gtp-router/control/stats/stats.go: the verdict counters, summed over the CPUs.
pub mod Laws
use mathlib.Core.List.{foldl}
use ebpf_packet_router.Prelude.{
  ℕ, ◌+◌, ◌%◌, ◌^◌, List, [], ◌∷◌, ◌++◌, none, some, Result, ok, err, ◌>>=◌, leb, get_or, set,
  if◌then◌else◌,
}
use ebpf_packet_router.Std.Text.{Bytes, codes}
use ebpf_packet_router.Std.Number.{decimal}
use ebpf_packet_router.Std.Float.{fixed2}
use ebpf_packet_router.Errors.{
  Error, MapError, stats_map, slot_key, opening, looking_up, within_context, map_error,
}
use ebpf_packet_router.Maps.Tables.Interface.{EbpfMap}
use ebpf_packet_router.Maps.Tables.Wrappers.{failure}

unfoldable pub format_bytes : ℕ → Bytes
format_bytes b =
    if leb (2 ^ 30) b
    then fixed2 b 30 ++ codes " GB"
    else if leb (2 ^ 20) b
    then fixed2 b 20 ++ codes " MB"
    else if leb (2 ^ 10) b
    then fixed2 b 10 ++ codes " KB"
    else decimal b ++ codes " B"

pub record VerdictStat : Type 0 where
  pub packets : ℕ
  pub bytes : ℕ

pub record Counters : Type 0 where
  pub pass : VerdictStat
  pub drop : VerdictStat
  pub redirect : VerdictStat

-- the value of one CPU
pub record PerCpuStat : Type 0 where
  pub packets : ℕ
  pub bytes : ℕ

abbrev pub zero_stat : VerdictStat
zero_stat = record { packets = 0; bytes = 0 }

-- `totals[key].Packets += cpu.Packets`, in 64 bits
unfoldable pub add_cpu : VerdictStat → PerCpuStat → VerdictStat
add_cpu total cpu = record {
  packets = (total.packets + cpu.packets) % 2 ^ 64;
  bytes = (total.bytes + cpu.bytes) % 2 ^ 64;
}

module _ (M : EbpfMap (List PerCpuStat)) where
  open M use {Map, load_pinned, lookup}

  abbrev slot : Result MapError (List PerCpuStat) → ℕ → Result Error (List PerCpuStat)
  slot (ok per_cpu) key = ok per_cpu
  slot (err e) key = err (within_context (looking_up stats_map (slot_key key)) (map_error e))

  -- the loop over the slots in use
  unfoldable pub read_slots : List ℕ → List VerdictStat → Map → Result Error (List VerdictStat)
  unfolding add_cpu
  read_slots [] totals m = ok totals
  read_slots (key ∷ keys) totals m = slot (lookup key m) key >>= λ per_cpu.
      read_slots keys (set totals key (foldl add_cpu (get_or totals key zero_stat) per_cpu)) m

  unfoldable pub read_from_map : Map → Result Error Counters
  unfolding read_slots
  read_from_map m =
      read_slots (0 ∷ 1 ∷ 3 ∷ []) (zero_stat ∷ zero_stat ∷ zero_stat ∷ zero_stat ∷ []) m
      >>= λ totals. ok (record {
        pass = get_or totals 0 zero_stat;
        drop = get_or totals 1 zero_stat;
        redirect = get_or totals 3 zero_stat;
      })

  unfoldable pub read : Map → Result Error Counters
  unfolding read_from_map
  read m = failure (opening stats_map) (load_pinned m) >>= λ _. read_from_map m
