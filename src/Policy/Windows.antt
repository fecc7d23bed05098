-- ===== src/Policy/Windows.antt =====
-- A rule under a sequence of packets.
pub mod Quarantine
pub mod Overrun
pub mod Escalation
use Prim.Native.Nat.{min}
use ebpf_packet_router.Prelude.{
  ℕ, zero, suc, ◌+◌, ◌-◌, ◌*◌, ◌%◌, ◌^◌, ◌≤◌, ◌<◌, ◌≡◌, ◌≢◌, refl, ap, ◌∙◌, Bool, true, false, List,
  [], ◌∷◌, ◌++◌, arith, ◌==◌, if◌then◌else◌, All, length, dec_lt,
}
use ebpf_packet_router.Maps.Types.{FwdRule}
use ebpf_packet_router.Policy.{
  second_ns, since, roll_window, count_packet, enforce_rate, enforce_policy,
}
use ebpf_packet_router.Policy.Laws.{IsPoliced, enforce_policy-IsPoliced}

-- the rule after packets at the given times, and how many of them were let through
unfoldable pub run : FwdRule → List ℕ → FwdRule × ℕ
run r [] = (r, 0)
run r (t ∷ ts) =
    let (r', dropped) = enforce_policy t r in
    let (s, passed) = run r' ts in (s, if dropped then passed else suc passed)

-- Through any packets, a rule stays in range: its window counts no more than the cap, its streak is
-- below a threshold that is set, and cap, threshold and streak fit in 32 bits.
pub run-IsPoliced : (r : FwdRule) (ts : List ℕ) → IsPoliced r → IsPoliced (run r ts).0
unfolding run
run-IsPoliced r [] v = v
run-IsPoliced r (t ∷ ts) v = run-IsPoliced (enforce_policy t r).0 ts (enforce_policy-IsPoliced t v)

-- a rule that is not quarantined, and whose window a time falls into
pub record IsOpen (r : FwdRule) (t : ℕ) : Type 0 where
  pub released : r.quarantine_until_ns ≡ 0
  pub limited : r.rate_pps ≢ 0
  pub inside : since t r.window_start_ns < second_ns

-- one packet inside the window
pub inside_step : (r : FwdRule) (t : ℕ) → IsOpen r t → enforce_policy t r ≡ count_packet r
unfolding enforce_policy
inside_step r t h = ground arith

count_packet-IsOpen :
    (r : FwdRule) (ts : List ℕ) → All (IsOpen r) ts → All (IsOpen (count_packet r).0) ts
count_packet-IsOpen r [] h = tt
count_packet-IsOpen r (t ∷ ts) (ht, hts) =
    (unfold count_packet in ground arith, count_packet-IsOpen r ts hts)

count_packet-IsPoliced : (r : FwdRule) → IsPoliced r → IsPoliced (count_packet r).0
unfolding count_packet
count_packet-IsPoliced r v = ground arith

-- the cap is reached, or one more packet fits
count_packet_full : (r : FwdRule) → r.rate_pps ≤ r.window_count → (count_packet r).1 ≡ true
unfolding count_packet
count_packet_full r h = ground arith

count_packet_full_room :
    (r : FwdRule)
    → r.rate_pps ≤ r.window_count
    → (count_packet r).0.rate_pps - (count_packet r).0.window_count ≡ 0
unfolding count_packet
count_packet_full_room r h = ground arith

count_packet_room :
    (r : FwdRule)
    → IsPoliced r
    → r.window_count < r.rate_pps
    → ((count_packet r).1 ≡ false)
      × (suc ((count_packet r).0.rate_pps - (count_packet r).0.window_count)
          ≡ r.rate_pps - r.window_count)
unfolding count_packet
count_packet_room r v h = ground arith

-- If a rule has a cap, is not in quarantine, and is in range (its window has counted no more than
-- the cap, its streak is below a threshold that is set, and cap, threshold and streak fit in 32
-- bits), then of packets that fall into its window, as many pass as the cap has left, or all of
-- them if they are fewer.
pub run_window :
    (r : FwdRule) (ts : List ℕ)
    → IsPoliced r
    → All (IsOpen r) ts
    → (run r ts).1 ≡ min (r.rate_pps - r.window_count) (length ts)
unfolding run
run_window r [] v h = omega arith
run_window r (t ∷ ts) v (ht, hts) =
    let ih =
      run_window (count_packet r).0 ts (count_packet-IsPoliced r v)
        (count_packet-IsOpen r ts hts) in
    rw (inside_step r t ht) (elim (dec_lt r.window_count r.rate_pps) [
      | yes room ↦ let (passes, left) = count_packet_room r v room in rw (passes, ih) (omega arith)
      | no full ↦
          let drops = count_packet_full r (omega arith) in
          let left = count_packet_full_room r (omega arith) in rw (drops, ih) (omega arith)
    ])
