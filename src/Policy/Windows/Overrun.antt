-- ===== src/Policy/Windows/Overrun.antt =====
-- Packets that fill the cap of a window, and the packet behind them.
use ebpf_packet_router.Prelude.{
  ℕ, zero, suc, ◌+◌, ◌^◌, ◌≤◌, ◌<◌, ◌≡◌, refl, ap, ◌∙◌, List, [], ◌∷◌, arith, replicate, false,
}
use ebpf_packet_router.Maps.Types.{FwdRule}
use ebpf_packet_router.Policy.{u64, count_packet, enforce_policy}
use ebpf_packet_router.Policy.Windows.{run, IsOpen, inside_step}

pub run-cons :
    (r : FwdRule) (t : ℕ) (ts : List ℕ) → (run r (t ∷ ts)).0 ≡ (run (enforce_policy t r).0 ts).0
unfolding run
run-cons r t ts = refl

-- packets that fit under the cap
pub fill :
    (k t : ℕ) (r : FwdRule)
    → IsOpen r t
    → r.window_count + k ≤ r.rate_pps
    → r.rate_pps < 2 ^ 32
    → (run r (replicate k t)).0 ≡ record r { window_count = r.window_count + k }
fill zero t r o fits narrow = unfold run in ap (λ c. record r { window_count = c }) (omega arith)
fill (suc k) t r o fits narrow =
    let r' = record r { window_count = r.window_count + 1 } in
    let step : count_packet r ≡ (r', false) = unfold count_packet in ground arith in
    run-cons r t (replicate k t)
    ∙ ap (λ p. (run p.0 (replicate k t)).0) (inside_step r t o ∙ step)
    ∙ fill k t r' (record { released = o.released; limited = o.limited; inside = o.inside })
        (omega arith) narrow
    ∙ ap (λ c. record r { window_count = c }) (omega arith)

-- the packet behind them
pub overflow :
    (t : ℕ) (r : FwdRule)
    → IsOpen r t
    → r.window_count ≡ r.rate_pps
    → (run r (t ∷ [])).0
      ≡ record r { window_violated = 1; rate_drop_count = u64 (r.rate_drop_count + 1) }
overflow t r o full =
    run-cons r t []
    ∙ ap (λ p. (run p.0 []).0) (inside_step r t o)
    ∙ (unfold run in unfold count_packet in ground arith)
