-- ===== src/Policy/Windows/Escalation.antt =====
-- How windows that met the cap, one after the other, lead to a quarantine.
use ebpf_packet_router.Prelude.{
  ℕ, zero, suc, ◌+◌, ◌*◌, ◌^◌, ◌≤◌, ◌<◌, ◌≡◌, ◌≢◌, List, [], ◌∷◌, ◌++◌, arith, replicate, length,
  All, All-append,
}
use ebpf_packet_router.Maps.Types.{FwdRule}
use ebpf_packet_router.Policy.{second_ns, enforce_policy}
use ebpf_packet_router.Policy.Windows.{run}
use ebpf_packet_router.Policy.Windows.Overrun.{run-cons, fill, overflow}
use ebpf_packet_router.Policy.Windows.Quarantine.{run-append, IsHeld, run_quarantined}

-- a cap of spare + 1 packets a second, and a quarantine
module _ (spare threshold seconds : ℕ) where
  -- at one time, one packet more than the cap
  abbrev overrun : ℕ → List ℕ
  overrun t = t ∷ (replicate spare t ++ t ∷ [])

  -- the window that began at `start` has met the cap, and so have `strikes` before it
  record IsStruck (start strikes : ℕ) (r : FwdRule) : Type 0 where
    released : r.quarantine_until_ns ≡ 0
    started : r.window_start_ns ≡ start
    violated : r.window_violated ≡ 1
    streak : r.violation_streak ≡ strikes
    cap : r.rate_pps ≡ suc spare
    limit : r.quarantine_threshold ≡ threshold
    penalty : r.quarantine_seconds ≡ seconds

  -- the window has just let its first packet through
  record IsBegun (start strikes : ℕ) (r : FwdRule) : Type 0 where
    released : r.quarantine_until_ns ≡ 0
    started : r.window_start_ns ≡ start
    one : r.window_count ≡ 1
    streak : r.violation_streak ≡ strikes
    cap : r.rate_pps ≡ suc spare
    limit : r.quarantine_threshold ≡ threshold
    penalty : r.quarantine_seconds ≡ seconds

  begin :
      {start strikes : ℕ} {r : FwdRule} (t : ℕ)
      → IsStruck start strikes r
      → start + second_ns ≤ t
      → t < 2 ^ 64
      → suc strikes < threshold
      → threshold < 2 ^ 32
      → spare < 2 ^ 32
      → IsBegun t (suc strikes) (enforce_policy t r).0
  unfolding enforce_policy
  begin t s gap clock more narrow cap = ground arith

  begin_quarantine :
      {start strikes : ℕ} {r : FwdRule} (t : ℕ)
      → IsStruck start strikes r
      → start + second_ns ≤ t
      → suc strikes ≡ threshold
      → threshold < 2 ^ 32
      → seconds ≢ 0
      → t + seconds * second_ns < 2 ^ 64
      → IsHeld (enforce_policy t r).0
        × ((enforce_policy t r).0.quarantine_until_ns ≡ t + seconds * second_ns)
  unfolding enforce_policy
  begin_quarantine t s gap last narrow some_time clock = (ground arith, ground arith)

  full :
      {strikes : ℕ} {r : FwdRule} (t : ℕ)
      → IsBegun t strikes r
      → suc spare < 2 ^ 32
      → t < 2 ^ 64
      → IsStruck t strikes (run r (replicate spare t ++ t ∷ [])).0
  full {strikes} {r} t b narrow clock =
      let r' = record r { window_count = r.window_count + spare } in
      let filled : (run r (replicate spare t)).0 ≡ r' =
        fill spare t r (ground arith) (ground arith) (ground arith) in
      let last = overflow t r' (ground arith) (ground arith) in
      rw (run-append r (replicate spare t) (t ∷ []), filled, last) (ground arith)

  -- the windows follow each other at a second or more
  abbrev pub IsSpaced : ℕ → List ℕ → Type 0
  IsSpaced start [] = Unit
  IsSpaced start (t ∷ ts) = (start + second_ns ≤ t) × IsSpaced t ts

  spaced_last :
      (start : ℕ) (ts : List ℕ) (t : ℕ) → IsSpaced start (ts ++ t ∷ []) → start + second_ns ≤ t
  spaced_last start [] t (h, _) = h
  spaced_last start (u ∷ ts) t (h, hs) = let later = spaced_last u ts t hs in omega arith

  -- an overrun of the cap at each time
  abbrev pub overruns : List ℕ → List ℕ
  overruns [] = []
  overruns (t ∷ ts) = overrun t ++ overruns ts

  pub record InRange : Type 0 where
    pub cap_narrow : suc spare < 2 ^ 32
    pub threshold_narrow : threshold < 2 ^ 32
    pub threshold_set : threshold ≢ 0
    pub seconds_set : seconds ≢ 0

  -- a rule as the control plane writes it
  pub record IsFresh (r : FwdRule) : Type 0 where
    pub released : r.quarantine_until_ns ≡ 0
    pub started : r.window_start_ns ≡ 0
    pub clean : r.window_violated ≡ 0
    pub streak : r.violation_streak ≡ 0
    pub cap : r.rate_pps ≡ suc spare
    pub limit : r.quarantine_threshold ≡ threshold
    pub penalty : r.quarantine_seconds ≡ seconds

  begin_fresh :
      {r : FwdRule} (t : ℕ)
      → IsFresh r
      → second_ns ≤ t
      → t < 2 ^ 64
      → spare < 2 ^ 32
      → IsBegun t 0 (enforce_policy t r).0
  unfolding enforce_policy
  begin_fresh t f gap clock cap = ground arith

  abbrev IsEscalated : ℕ → FwdRule → Type 0
  IsEscalated t r = IsHeld r × (r.quarantine_until_ns ≡ t + seconds * second_ns)

  All-replicate : (P : ℕ → Type 0) (k t : ℕ) → P t → All P (replicate k t ++ t ∷ [])
  All-replicate P zero t p = (p, tt)
  All-replicate P (suc k) t p = (p, All-replicate P k t p)

  module _ (range : InRange) where
    struck_last :
        {start strikes : ℕ} (r : FwdRule) (t : ℕ)
        → IsStruck start strikes r
        → start + second_ns ≤ t
        → suc strikes ≡ threshold
        → t + seconds * second_ns < 2 ^ 64
        → IsEscalated t (run r (overruns (t ∷ []))).0
    struck_last r t s gap last clock =
        let (held, until) =
          begin_quarantine t s gap last range.threshold_narrow range.seconds_set clock in
        let some_time = range.seconds_set in
        let quiet : All (λ u. u < (enforce_policy t r).0.quarantine_until_ns) _ =
          All-append _ (replicate spare t ++ t ∷ []) []
            (All-replicate _ spare t (rw until (omega arith))) tt in
        rw (run-cons r t _, run_quarantined (enforce_policy t r).0 _ held.held quiet) (held, until)

    strike :
        {start strikes : ℕ} (r : FwdRule) (t : ℕ)
        → IsStruck start strikes r
        → start + second_ns ≤ t
        → suc strikes < threshold
        → t < 2 ^ 64
        → IsStruck t (suc strikes) (run r (overrun t)).0
    strike r t s gap more clock =
        let narrow = range.cap_narrow in
        rw (run-cons r t (replicate spare t ++ t ∷ []))
          (full t (begin t s gap clock more range.threshold_narrow (omega arith)) narrow clock)

    struck_all :
        (start strikes : ℕ) (r : FwdRule) (ts : List ℕ) (t : ℕ)
        → IsStruck start strikes r
        → IsSpaced start (ts ++ t ∷ [])
        → strikes + suc (length ts) ≡ threshold
        → t + seconds * second_ns < 2 ^ 64
        → IsEscalated t (run r (overruns (ts ++ t ∷ []))).0
    struck_all start strikes r [] t s (gap, _) count clock =
        struck_last r t s gap (omega arith) clock
    struck_all start strikes r (u ∷ us) t s (gap, gaps) count clock =
        let before = spaced_last u us t gaps in
        let struck = strike r u s gap (omega arith) (omega arith) in
        rw (run-append r (overrun u) (overruns (us ++ t ∷ [])))
          (struck_all u (suc strikes) (run r (overrun u)).0 us t struck gaps (omega arith) clock)

    -- A rule with a cap, a threshold and a number of seconds that are not 0 and fit in their
    -- fields, as the control plane writes it, is in quarantine until quarantine_seconds behind t,
    -- and held until then, once one packet more than the cap has arrived at each of
    -- quarantine_threshold times and then at t, the first time a second or more behind 0, each a
    -- second or more behind the one before, and the end of the quarantine within 64 bits of
    -- nanoseconds; the pauses between the times may be of any length.
    pub run-overruns :
        (r : FwdRule) (ts : List ℕ) (t : ℕ)
        → IsFresh r
        → IsSpaced 0 (ts ++ t ∷ [])
        → length ts ≡ threshold
        → t + seconds * second_ns < 2 ^ 64
        → IsHeld (run r (overruns (ts ++ t ∷ []))).0
          × ((run r (overruns (ts ++ t ∷ []))).0.quarantine_until_ns ≡ t + seconds * second_ns)
    run-overruns r [] t f gaps count clock = absurd (range.threshold_set (omega arith))
    run-overruns r (u ∷ us) t f (gap, gaps) count clock =
        let before = spaced_last u us t gaps in
        let narrow = range.cap_narrow in
        let begun = begin_fresh u f gap (omega arith) (omega arith) in
        let struck : IsStruck u 0 (run r (overrun u)).0 =
          rw (run-cons r u (replicate spare u ++ u ∷ [])) (full u begun narrow (omega arith)) in
        rw (run-append r (overrun u) (overruns (us ++ t ∷ [])))
          (struck_all u 0 (run r (overrun u)).0 us t struck gaps (omega arith) clock)
