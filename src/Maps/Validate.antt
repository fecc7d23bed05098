-- ===== src/Maps/Validate.antt =====
-- gtp-router/control/maps/validate.go: what a rule must carry before it is written to a map.
pub mod Laws
use ebpf_packet_router.Prelude.{
  Bool, not, ◌&&◌, ◌==◌, Result, ok, err, ◌>>=◌, ◌>>◌, fail_if, if◌then◌else◌,
}
use ebpf_packet_router.Std.Text.{bytes_eq}
use ebpf_packet_router.Errors.{
  Error, quarantine_seconds_required, required_for, required_for_encap, out_iface_flag, dmac_flag,
  smac_flag, teid_out_flag, dst_ip_flag, src_ip_flag,
}
use ebpf_packet_router.Maps.Types.{FwdRule, zero_mac, action_drop, action_encap_fwd}

-- the checks of an encapsulating rule
abbrev validate_encap : FwdRule → Result Error (Unit {0})
validate_encap rule =
    if rule.action == action_encap_fwd
    then (do
      fail_if (rule.teid_out == 0) (required_for_encap teid_out_flag)
      fail_if (rule.dst_ip == 0) (required_for_encap dst_ip_flag)
      fail_if (rule.src_ip == 0) (required_for_encap src_ip_flag))
    else ok tt

-- the checks of a rule that does not drop
validate_forward : FwdRule → Result Error (Unit {0})
validate_forward rule = do
  fail_if (rule.out_ifindex == 0) (required_for out_iface_flag rule.action)
  fail_if (bytes_eq rule.dmac zero_mac) (required_for dmac_flag rule.action)
  fail_if (bytes_eq rule.smac zero_mac) (required_for smac_flag rule.action)
  validate_encap rule

unfoldable pub validate_rule : FwdRule → Result Error (Unit {0})
unfolding validate_forward
validate_rule rule = do
  fail_if (not (rule.quarantine_threshold == 0) && rule.quarantine_seconds == 0)
      quarantine_seconds_required
  if rule.action == action_drop then ok tt else validate_forward rule
