-- ===== src/Policy.antt =====
-- `enforce_policy` and `bump_rule` of gtp-router/ebpf/gtp_xdp.c: the rate cap and the quarantine of
-- a rule, as one packet meets them. The rule is the value that the control plane wrote (struct
-- fwd_rule of gtp-router/include/gtp_router.h); `now` is what bpf_ktime_get_ns returned.
pub mod Laws
pub mod Windows
use ebpf_packet_router.Prelude.{
  ℕ, ◌+◌, ◌-◌, ◌*◌, ◌%◌, ◌^◌, Bool, true, false, not, ◌&&◌, ◌==◌, ltb, leb, if◌then◌else◌,
}
use ebpf_packet_router.Maps.Types.{FwdRule}

abbrev pub second_ns : ℕ
second_ns = 1000000000

-- unsigned arithmetic wraps
abbrev pub u32 : ℕ → ℕ
u32 n = n % 2 ^ 32

abbrev pub u64 : ℕ → ℕ
u64 n = n % 2 ^ 64

-- `now - rule->window_start_ns` in 64 bits
abbrev pub since : ℕ → ℕ → ℕ
since now start = u64 (now + 2 ^ 64 - start)

-- a quarantine whose deadline has passed is released
abbrev pub release : FwdRule → FwdRule
release rule = record rule { quarantine_until_ns = 0; violation_streak = 0 }

-- the window that ended is scored
unfoldable pub score_window : ℕ → FwdRule → FwdRule
score_window now rule =
    let streak = u32 (rule.violation_streak + 1) in
    if not (rule.window_violated == 0)
    then (if not (rule.quarantine_threshold == 0) && leb rule.quarantine_threshold streak
        then record rule {
          quarantine_until_ns = u64 (now + rule.quarantine_seconds * second_ns);
          violation_streak = 0;
        }
        else record rule { violation_streak = streak })
    else record rule { violation_streak = 0 }

-- `if (now - rule->window_start_ns >= 1000000000ULL) { … }`
unfoldable pub roll_window : ℕ → FwdRule → FwdRule
unfolding score_window
roll_window now rule =
    if leb second_ns (since now rule.window_start_ns)
    then record (score_window now rule) {
      window_start_ns = now;
      window_count = 0;
      window_violated = 0;
    }
    else rule

-- the packet against the cap of its window; the second component tells whether it is dropped
unfoldable pub count_packet : FwdRule → FwdRule × Bool
count_packet rule =
    if leb rule.rate_pps rule.window_count
    then (
      record rule { window_violated = 1; rate_drop_count = u64 (rule.rate_drop_count + 1) },
      true,
    )
    else (record rule { window_count = u32 (rule.window_count + 1) }, false)

-- what follows the check of the quarantine
unfoldable pub enforce_rate : ℕ → FwdRule → FwdRule × Bool
unfolding roll_window count_packet
enforce_rate now rule =
    if rule.rate_pps == 0 then (rule, false) else count_packet (roll_window now rule)

unfoldable pub enforce_policy : ℕ → FwdRule → FwdRule × Bool
unfolding enforce_rate
enforce_policy now rule =
    if not (rule.quarantine_until_ns == 0)
    then (if ltb now rule.quarantine_until_ns
        then (rule, true)
        else enforce_rate now (release rule))
    else enforce_rate now rule

unfoldable pub bump_rule : FwdRule → ℕ → FwdRule
bump_rule rule bytes = record rule {
  pkt_count = u64 (rule.pkt_count + 1);
  byte_count = u64 (rule.byte_count + bytes);
}
