-- ===== src/Policy/Laws.antt =====
-- What one packet does to a rule.
use ebpf_packet_router.Prelude.{ℕ, ◌^◌, ◌≤◌, ◌<◌, ◌≡◌, ◌≢◌, arith}
use ebpf_packet_router.Maps.Types.{FwdRule}
use ebpf_packet_router.Policy.{score_window, enforce_policy}

-- What the control plane configured stays as it is.
pub record SameConfig (r s : FwdRule) : Type 0 where
  pub action : s.action ≡ r.action
  pub out_ifindex : s.out_ifindex ≡ r.out_ifindex
  pub nat_ip : s.nat_ip ≡ r.nat_ip
  pub rate_pps : s.rate_pps ≡ r.rate_pps
  pub quarantine_threshold : s.quarantine_threshold ≡ r.quarantine_threshold
  pub quarantine_seconds : s.quarantine_seconds ≡ r.quarantine_seconds

-- A packet changes nothing of a rule's action, egress index, subscriber address, cap, threshold and
-- seconds.
pub enforce_policy-SameConfig : (now : ℕ) (r : FwdRule) → SameConfig r (enforce_policy now r).0
unfolding enforce_policy
enforce_policy-SameConfig now r = ground arith

-- the counters of a rule are in range
pub record IsPoliced (r : FwdRule) : Type 0 where
  pub capped : r.window_count ≤ r.rate_pps
  pub below : r.quarantine_threshold ≢ 0 → r.violation_streak < r.quarantine_threshold
  pub narrow : r.rate_pps < 2 ^ 32
  pub narrow_threshold : r.quarantine_threshold < 2 ^ 32
  pub narrow_streak : r.violation_streak < 2 ^ 32

score_window-IsPoliced : (now : ℕ) {r : FwdRule} → IsPoliced r → IsPoliced (score_window now r)
unfolding score_window
score_window-IsPoliced now v = ground arith

pub enforce_policy-IsPoliced :
    (now : ℕ) {r : FwdRule} → IsPoliced r → IsPoliced (enforce_policy now r).0
unfolding enforce_policy
enforce_policy-IsPoliced now v = ground arith
