-- ===== src/Maps/Types.antt =====
-- gtp-router/control/maps/types.go: actions, the forwarding rule, addresses and MACs as numbers and
-- texts, and byte counts as text.
pub mod Laws
pub mod Texts
use ebpf_packet_router.Prelude.{
  ℕ, ◌^◌, Bool, ◌||◌, List, [], ◌∷◌, ◌++◌, Option, none, some, ◌==◌, leb, length, Result, ok, err,
  if◌then◌else◌,
}
use ebpf_packet_router.Std.Text.{Bytes, codes, bytes_eq}
use ebpf_packet_router.Std.Number.{decimal, hex2}
use ebpf_packet_router.Std.Binary.{uint32_be, put_uint32_be}
use ebpf_packet_router.Std.Address.{Ip, to4}
use ebpf_packet_router.Std.Mac.{net_parse_mac}
use ebpf_packet_router.Std.Float.{fixed2}
use ebpf_packet_router.Errors.{Error, unknown_action, only_ipv4, bad_mac, mac_length}

abbrev pub action_drop : ℕ
action_drop = 0

abbrev pub action_decap_fwd : ℕ
action_decap_fwd = 1

abbrev pub action_encap_fwd : ℕ
action_encap_fwd = 2

abbrev pub action_redirect : ℕ
action_redirect = 3

unfoldable pub action_string : ℕ → Bytes
action_string a =
    if a == action_drop
    then codes "DROP"
    else if a == action_decap_fwd
    then codes "DECAP_FWD"
    else if a == action_encap_fwd
    then codes "ENCAP_FWD"
    else if a == action_redirect
    then codes "REDIRECT"
    else codes "UNKNOWN(" ++ decimal a ++ codes ")"

unfoldable pub parse_action : Bytes → Result Error ℕ
parse_action s =
    if bytes_eq s (codes "drop")
    then ok action_drop
    else if bytes_eq s (codes "decap") || bytes_eq s (codes "decap_fwd")
    then ok action_decap_fwd
    else if bytes_eq s (codes "encap") || bytes_eq s (codes "encap_fwd")
    then ok action_encap_fwd
    else if bytes_eq s (codes "redirect")
    then ok action_redirect
    else err (unknown_action s)

-- [6]byte
abbrev pub Mac : Type 0
Mac = List ℕ

abbrev pub zero_mac : Mac
zero_mac = 0 ∷ 0 ∷ 0 ∷ 0 ∷ 0 ∷ 0 ∷ []

pub record FwdRule : Type 0 where
  pub action : ℕ
  pub out_ifindex : ℕ
  pub dmac : Mac
  pub smac : Mac
  pub teid_out : ℕ
  pub dst_ip : ℕ
  pub src_ip : ℕ
  pub dst_port : ℕ
  pub pad : List ℕ
  pub nat_ip : ℕ
  pub pkt_count : ℕ
  pub byte_count : ℕ
  pub rate_pps : ℕ
  pub window_count : ℕ
  pub window_start_ns : ℕ
  pub rate_drop_count : ℕ
  pub violation_streak : ℕ
  pub quarantine_threshold : ℕ
  pub quarantine_seconds : ℕ
  pub window_violated : ℕ
  pub quarantine_until_ns : ℕ

-- `FwdRule{}`
abbrev pub zero_rule : FwdRule
zero_rule = record {
  action = 0;
  out_ifindex = 0;
  dmac = zero_mac;
  smac = zero_mac;
  teid_out = 0;
  dst_ip = 0;
  src_ip = 0;
  dst_port = 0;
  pad = 0 ∷ 0 ∷ [];
  nat_ip = 0;
  pkt_count = 0;
  byte_count = 0;
  rate_pps = 0;
  window_count = 0;
  window_start_ns = 0;
  rate_drop_count = 0;
  violation_streak = 0;
  quarantine_threshold = 0;
  quarantine_seconds = 0;
  window_violated = 0;
  quarantine_until_ns = 0;
}

unfoldable pub ip_to_uint32 : Ip → Result Error ℕ
ip_to_uint32 ip = elim (to4 ip) [ none ↦ err (only_ipv4 ip) | some ip4 ↦ ok (uint32_be ip4) ]

unfoldable pub uint32_to_ip : ℕ → Ip
unfolding put_uint32_be
uint32_to_ip n = put_uint32_be n

-- a netip.Addr is the list of its bytes, four of them for `Is4`
unfoldable pub addr_to_uint32 : List ℕ → Result Error ℕ
addr_to_uint32 a = if length a == 4 then ok (uint32_be a) else err (only_ipv4 a)

unfoldable pub parse_mac : Bytes → Result Error Mac
parse_mac s = elim (net_parse_mac s) [
  | none ↦ err (bad_mac s)
  | some hw ↦ if length hw == 6 then ok hw else err (mac_length (length hw))
]

unfoldable pub mac_string : Mac → Bytes
mac_string [] = []
mac_string (b ∷ []) = hex2 b
mac_string (b ∷ c ∷ s) = hex2 b ++ b':' ∷ mac_string (c ∷ s)

unfoldable pub format_bytes : ℕ → Bytes
format_bytes b =
    if leb (2 ^ 30) b
    then fixed2 b 30 ++ codes "GB"
    else if leb (2 ^ 20) b
    then fixed2 b 20 ++ codes "MB"
    else if leb (2 ^ 10) b
    then fixed2 b 10 ++ codes "KB"
    else decimal b ++ codes "B"
