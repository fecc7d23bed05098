-- ===== src/Stats/Laws.antt =====
-- The counters are the sums over the CPUs of their slots.
use mathlib.Core.List.{foldl}
use native.Mathlib.Nat.{zero-add}
use ebpf_packet_router.Prelude.{ℕ, ◌+◌, ◌%◌, ◌^◌, ◌<◌, ◌≡◌, ◌∙◌, List, [], ◌∷◌, arith, ok}
use ebpf_packet_router.Maps.Tables.Interface.{EbpfMap}
use ebpf_packet_router.Stats.{VerdictStat, PerCpuStat, zero_stat, add_cpu, read_from_map}

-- the sum over the CPUs, without a bound
abbrev pub sum_of : (PerCpuStat → ℕ) → List PerCpuStat → ℕ
sum_of f [] = 0
sum_of f (c ∷ cs) = f c + sum_of f cs

-- the totals of one slot
abbrev pub total_of : List PerCpuStat → VerdictStat
total_of cpus = record {
  packets = sum_of (λ c. c.packets) cpus % 2 ^ 64;
  bytes = sum_of (λ c. c.bytes) cpus % 2 ^ 64;
}

add_cpus :
    (t : VerdictStat) (cpus : List PerCpuStat)
    → t.packets < 2 ^ 64
    → t.bytes < 2 ^ 64
    → foldl add_cpu t cpus ≡ record {
      packets = (t.packets + sum_of (λ c. c.packets) cpus) % 2 ^ 64;
      bytes = (t.bytes + sum_of (λ c. c.bytes) cpus) % 2 ^ 64;
    }
unfolding add_cpu
add_cpus t [] hp hb = ground arith
add_cpus t (c ∷ cpus) hp hb = add_cpus (add_cpu t c) cpus (omega arith) (omega arith) ∙ ground arith

module _ (M : EbpfMap (List PerCpuStat)) (m : M.Map) (pass drop redirect : List PerCpuStat) where
  -- If the three slots in use can be looked up, ReadFromMap returns for each verdict the packets
  -- and the bytes summed over the CPUs, modulo 2 ^ 64.
  pub read_from_map-sums :
      M.lookup 0 m ≡ ok pass
      → M.lookup 1 m ≡ ok drop
      → M.lookup 3 m ≡ ok redirect
      → read_from_map M m
        ≡ ok (record { pass = total_of pass; drop = total_of drop; redirect = total_of redirect })
  unfolding read_from_map
  read_from_map-sums h0 h1 h3 =
      rw (h0, h1, h3)
        (rw
          (
            add_cpus zero_stat pass (omega arith) (omega arith),
            add_cpus zero_stat drop (omega arith) (omega arith),
            add_cpus zero_stat redirect (omega arith) (omega arith),
          )
          (simp zero-add))
