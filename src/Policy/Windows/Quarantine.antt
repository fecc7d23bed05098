-- ===== src/Policy/Windows/Quarantine.antt =====
-- A quarantined rule drops everything until its deadline, and then releases itself; and no run lets
-- more through than a cap for each window.
use mathlib.Core.Path.{subst}
use ebpf_packet_router.Prelude.{
  ℕ, suc, ◌+◌, ◌-◌, ◌*◌, ◌^◌, ◌≤◌, ◌<◌, ◌≡◌, ◌≢◌, refl, sym, ◌∙◌, Bool, true, false, not, ◌&&◌,
  List, [], ◌∷◌, ◌++◌, arith, ◌==◌, ltb, leb, if◌then◌else◌, All,
}
use ebpf_packet_router.Maps.Types.{FwdRule}
use ebpf_packet_router.Policy.{second_ns, since, enforce_policy}
use ebpf_packet_router.Policy.Laws.{IsPoliced, enforce_policy-IsPoliced, enforce_policy-SameConfig}
use ebpf_packet_router.Policy.Windows.{run}

quarantined_step :
    (r : FwdRule) (t : ℕ)
    → r.quarantine_until_ns ≢ 0
    → t < r.quarantine_until_ns
    → enforce_policy t r ≡ (r, true)
unfolding enforce_policy
quarantined_step r t h k = ground arith

pub run_quarantined :
    (r : FwdRule) (ts : List ℕ)
    → r.quarantine_until_ns ≢ 0
    → All (λ t. t < r.quarantine_until_ns) ts
    → run r ts ≡ (r, 0)
unfolding run
run_quarantined r [] q h = refl
run_quarantined r (t ∷ ts) q (ht, hts) =
    rw (quarantined_step r t q ht) (rw (run_quarantined r ts q hts))

-- a quarantine as the program sets it: a window was started, none of its packets has met the cap,
-- and the deadline is a second or more behind its start
pub record IsHeld (r : FwdRule) : Type 0 where
  pub limited : r.rate_pps ≢ 0
  pub held : r.quarantine_until_ns ≢ 0
  pub clean : r.window_violated ≡ 0
  pub apart : r.window_start_ns + second_ns ≤ r.quarantine_until_ns

-- the first packet at or behind the deadline
released_step :
    (r : FwdRule) (t : ℕ)
    → IsHeld r
    → r.quarantine_until_ns ≤ t
    → t < 2 ^ 64
    → ((enforce_policy t r).1 ≡ false) × ((enforce_policy t r).0.quarantine_until_ns ≡ 0)
unfolding enforce_policy
released_step r t held h k = ground arith

pub run-append :
    (r : FwdRule) (ts us : List ℕ)
    → run r (ts ++ us) ≡ ((run (run r ts).0 us).0, (run r ts).1 + (run (run r ts).0 us).1)
unfolding run
run-append r [] us = ground arith
run-append r (t ∷ ts) us = rw (run-append (enforce_policy t r).0 ts us) (ground arith)

-- A rule with a cap that is held by a quarantine, its window begun a second or more before the
-- deadline and without a violation, lets none of any packets before the deadline through; the first
-- packet at or behind it, within 64 bits of nanoseconds, passes and ends the quarantine.
pub run_quarantine_cycle :
    (r : FwdRule) (ts : List ℕ) (t : ℕ)
    → IsHeld r
    → All (λ u. u < r.quarantine_until_ns) ts
    → r.quarantine_until_ns ≤ t
    → t < 2 ^ 64
    → ((run r (ts ++ t ∷ [])).1 ≡ 1) × ((run r (ts ++ t ∷ [])).0.quarantine_until_ns ≡ 0)
run_quarantine_cycle r ts t held hts ht k =
    let (passes, released) = released_step r t held ht k in
    rw (run-append r ts (t ∷ []), run_quarantined r ts held.held hts)
      (unfold run in rw (passes, released) (refl, refl))

-- whether a packet starts a window: its rule is not held, and a second has passed
abbrev pub starts_window : FwdRule → ℕ → Bool
starts_window r t =
    not (not (r.quarantine_until_ns == 0) && ltb t r.quarantine_until_ns)
    && leb second_ns (since t r.window_start_ns)

-- how many of the packets start a window
unfoldable pub windows : FwdRule → List ℕ → ℕ
windows r [] = 0
windows r (t ∷ ts) =
    let rest = windows (enforce_policy t r).0 ts in if starts_window r t then suc rest else rest

room_step :
    (r : FwdRule) (t : ℕ)
    → r.rate_pps ≢ 0
    → IsPoliced r
    → (if (enforce_policy t r).1 then 0 else 1)
        + ((enforce_policy t r).0.rate_pps - (enforce_policy t r).0.window_count)
      ≤ (r.rate_pps - r.window_count) + (if starts_window r t then r.rate_pps else 0)
unfolding enforce_policy
room_step r t rate v = ground arith

room_sum :
    (drops starts : Bool) (passed room' room rate w : ℕ)
    → passed ≤ room' + rate * w
    → (if drops then 0 else 1) + room' ≤ room + (if starts then rate else 0)
    → (if drops then passed else suc passed) ≤ room + rate * (if starts then suc w else w)
room_sum true true passed room' room rate w h k = omega arith
room_sum true false passed room' room rate w h k = omega arith
room_sum false true passed room' room rate w h k = omega arith
room_sum false false passed room' room rate w h k = omega arith

-- A rule with a cap whose state is in range (its window has counted no more than the cap, its
-- streak is below a threshold that is set, and cap, threshold and streak fit in 32 bits) lets
-- through, of any packets at any times, no more than what its window has left and a full cap for
-- each window that a packet starts.
pub run_capped :
    (r : FwdRule) (ts : List ℕ)
    → r.rate_pps ≢ 0
    → IsPoliced r
    → (run r ts).1 ≤ (r.rate_pps - r.window_count) + r.rate_pps * windows r ts
unfolding run windows
run_capped r [] rate v = omega arith
run_capped r (t ∷ ts) rate v =
    let r' = (enforce_policy t r).0 in
    let same = (enforce_policy-SameConfig t r).rate_pps in
    let ih = run_capped r' ts (λ e. rate (sym same ∙ e)) (enforce_policy-IsPoliced t v) in
    room_sum (enforce_policy t r).1 (starts_window r t) (run r' ts).1
      (r'.rate_pps - r'.window_count) (r.rate_pps - r.window_count) r.rate_pps (windows r' ts)
      (subst (λ c. (run r' ts).1 ≤ (r'.rate_pps - r'.window_count) + c * windows r' ts) same ih)
      (room_step r t rate v)
