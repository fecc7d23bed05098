-- ===== src/Maps/Validate/Laws.antt =====
-- What `ValidateRule` accepts, stated without its order of tests.
use mathlib.Core.Bool.{false≢true}
use ebpf_packet_router.Prelude.{
  sym, ap, ◌∙◌, ℕ, ◌≡◌, ◌≢◌, ◌↔◌, inl, inr, false, Bool-cases, not, ◌&&◌, ne→==, ==-ne, ==_iff,
  fail_if-ok, arith, ok, ◌==◌, List,
}
use ebpf_packet_router.Std.Text.{bytes_eq}
use ebpf_packet_router.Std.Text.Laws.{bytes_eq-eq, bytes_eq_refl}
use ebpf_packet_router.Maps.Types.{FwdRule, zero_mac, action_drop, action_encap_fwd}
use ebpf_packet_router.Maps.Validate.{validate_encap, validate_forward, validate_rule}

-- a rule carries what its action and its quarantine need
pub record IsComplete (rule : FwdRule) : Type 0 where
  pub timed : rule.quarantine_threshold ≢ 0 → rule.quarantine_seconds ≢ 0
  pub egress : rule.action ≢ action_drop → rule.out_ifindex ≢ 0
  pub destination : rule.action ≢ action_drop → rule.dmac ≢ zero_mac
  pub origin : rule.action ≢ action_drop → rule.smac ≢ zero_mac
  pub tunnel : rule.action ≡ action_encap_fwd → rule.teid_out ≢ 0
  pub outer_destination : rule.action ≡ action_encap_fwd → rule.dst_ip ≢ 0
  pub outer_source : rule.action ≡ action_encap_fwd → rule.src_ip ≢ 0

mac_given : (m : List ℕ) → (bytes_eq m zero_mac ≡ false) ↔ (m ≢ zero_mac)
mac_given m = (
  λ e h. false≢true (sym e ∙ ap (λ t. bytes_eq t zero_mac) h ∙ bytes_eq_refl zero_mac),
  λ ne. elim (Bool-cases (bytes_eq m zero_mac)) [
    | inl e ↦ absurd (ne (bytes_eq-eq m zero_mac e))
    | inr e ↦ e
  ],
)

-- the egress tests of a rule that forwards, and the tests of its tunnel
module _ (rule : FwdRule) where
  abbrev Forwards : Type 0
  Forwards =
      (rule.out_ifindex ≢ 0)
      × (rule.dmac ≢ zero_mac)
      × (rule.smac ≢ zero_mac)
      × (rule.action ≡ action_encap_fwd
          → (rule.teid_out ≢ 0) × (rule.dst_ip ≢ 0) × (rule.src_ip ≢ 0))

  validate_encap-ok : (validate_encap rule ≡ ok tt) ↔ (
      rule.action ≡ action_encap_fwd → (rule.teid_out ≢ 0) × (rule.dst_ip ≢ 0) × (rule.src_ip ≢ 0))
  validate_encap-ok = (λ h e. ground arith, λ h. ground arith)

  validate_forward-ok : (validate_forward rule ≡ ok tt) ↔ Forwards
  unfolding validate_forward
  validate_forward-ok = (
    λ h.
        let (out, h1) = fail_if-ok (rule.out_ifindex == 0) _ _ h in
        let (dst, h2) = fail_if-ok (bytes_eq rule.dmac zero_mac) _ _ h1 in
        let (src, h3) = fail_if-ok (bytes_eq rule.smac zero_mac) _ _ h2 in
        (
          ==-ne out,
          (mac_given rule.dmac).0 dst,
          (mac_given rule.smac).0 src,
          validate_encap-ok.0 h3,
        ),
    λ (out, dst, src, tunnel).
        rw (ne→== rule.out_ifindex 0 out, (mac_given rule.dmac).1 dst, (mac_given rule.smac).1 src)
          (validate_encap-ok.1 tunnel),
  )

  validate_quarantine-ok :
      (not (rule.quarantine_threshold == 0) && rule.quarantine_seconds == 0 ≡ false)
      ↔ (rule.quarantine_threshold ≢ 0 → rule.quarantine_seconds ≢ 0)
  validate_quarantine-ok = (λ h a. ground arith, λ h. ground arith)

  sound : validate_rule rule ≡ ok tt → IsComplete rule
  unfolding validate_rule
  sound h =
      let (timed, rest) =
        fail_if-ok (not (rule.quarantine_threshold == 0) && rule.quarantine_seconds == 0) _ _ h in
      elim (Bool-cases (rule.action == action_drop)) [
        | inl drops ↦ record {
          timed = validate_quarantine-ok.0 timed;
          egress = λ ne. absurd (ne ((==_iff rule.action action_drop).0 drops));
          destination = λ ne. absurd (ne ((==_iff rule.action action_drop).0 drops));
          origin = λ ne. absurd (ne ((==_iff rule.action action_drop).0 drops));
          tunnel = λ e. absurd (ground arith);
          outer_destination = λ e. absurd (ground arith);
          outer_source = λ e. absurd (ground arith);
        }
        | inr forwards ↦
            let (out, dst, src, tunnel) = validate_forward-ok.0 (rw forwards at rest) in
            record {
              timed = validate_quarantine-ok.0 timed;
              egress = λ _. out;
              destination = λ _. dst;
              origin = λ _. src;
              tunnel = λ e. (tunnel e).0;
              outer_destination = λ e. (tunnel e).1;
              outer_source = λ e. (tunnel e).2;
            }
      ]

  complete : IsComplete rule → validate_rule rule ≡ ok tt
  unfolding validate_rule
  complete c = elim (Bool-cases (rule.action == action_drop)) [
    | inl drops ↦ rw (validate_quarantine-ok.1 c.timed, drops)
    | inr forwards ↦
        let ne : rule.action ≢ action_drop = ground arith in
        rw (validate_quarantine-ok.1 c.timed, forwards)
          (validate_forward-ok.1 (
            c.egress ne,
            c.destination ne,
            c.origin ne,
            λ e. (c.tunnel e, c.outer_destination e, c.outer_source e),
          ))
  ]

  -- ValidateRule accepts a rule exactly when the rule is complete: a threshold comes with a number
  -- of seconds, a rule that does not drop has an egress index and two MACs, and a rule that
  -- encapsulates has a TEID and two addresses besides.
  pub validate_rule-eq-ok : (validate_rule rule ≡ ok tt) ↔ IsComplete rule
  validate_rule-eq-ok = (sound, complete)
