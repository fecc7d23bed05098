-- ===== src/Tui/Form/Texts.antt =====
-- The part of gtp-router/control/tui/form.go that does without an input: the actions, the labels,
-- and the texts with which the form of a rule starts.
use ebpf_packet_router.Prelude.{
  ℕ, suc, Bool, true, false, List, [], ◌∷◌, ◌++◌, Option, none, some, ok, err, Result, ◌==◌,
  if◌then◌else◌,
}
use ebpf_packet_router.Std.Text.{Bytes, codes, bytes_eq}
use ebpf_packet_router.Std.Number.{decimal, hex8}
use ebpf_packet_router.Std.Address.{ip_string}
use ebpf_packet_router.Errors.{Error}
use ebpf_packet_router.Maps.Types.{FwdRule, Mac, zero_mac, parse_action, mac_string, uint32_to_ip}
use ebpf_packet_router.Cmd.Flags.{Interfaces}

abbrev pub action_options : List Bytes
action_options = codes "drop" ∷ codes "decap" ∷ codes "encap" ∷ codes "redirect" ∷ []

-- "teid" or "ueip"
pub data Target : Type 0 where
  teid_target ueip_target : Target

abbrev pub is_teid : Target → Bool
is_teid teid_target = true
is_teid ueip_target = false

unfoldable pub key_placeholder : Target → Bytes
key_placeholder teid_target = codes "0xDEAD"
key_placeholder ueip_target = codes "10.1.0.2"

unfoldable pub format_key : Target → ℕ → Bytes
format_key teid_target key = codes "0x" ++ hex8 key
format_key ueip_target key = ip_string (uint32_to_ip key)

abbrev parses_to : Result Error ℕ → ℕ → Bool
parses_to (ok v) a = v == a
parses_to (err e) a = false

-- the place of the first option that the parser reads as the action, from place i on
unfoldable pub action_index_from : ℕ → List Bytes → ℕ → ℕ
action_index_from i [] a = 0
action_index_from i (name ∷ names) a =
    if parses_to (parse_action name) a then i else action_index_from (suc i) names a

unfoldable pub action_index : ℕ → ℕ
unfolding action_index_from
action_index a = action_index_from 0 action_options a

-- the place of the picker when a rule is edited, which is nil if its row has vanished
unfoldable pub edit_action : Option FwdRule → ℕ
unfolding action_index
edit_action none = 0
edit_action (some r) = action_index r.action

-- `net.InterfaceByIndex`
unfoldable pub interface_by_index : Interfaces → ℕ → Option Bytes
interface_by_index [] index = none
interface_by_index ((name, i) ∷ rest) index =
    if i == index then some name else interface_by_index rest index

abbrev pub unless_zero : ℕ → Bytes → Option Bytes
unless_zero n text = if n == 0 then none else some text

abbrev pub unless_zero_mac : Mac → Option Bytes
unless_zero_mac mac = if bytes_eq mac zero_mac then none else some (mac_string mac)

-- The texts with which the form of a rule starts, for each label that has one.
unfoldable pub edit_values : Interfaces → FwdRule → List (Bytes × Option Bytes)
unfolding interface_by_index
edit_values ifaces r =
    (
      codes "Out-Iface",
      if r.out_ifindex == 0 then none else interface_by_index ifaces r.out_ifindex,
    )
    ∷ (codes "DMac", unless_zero_mac r.dmac)
    ∷ (codes "SMac", unless_zero_mac r.smac)
    ∷ (codes "Teid-Out", unless_zero r.teid_out (codes "0x" ++ hex8 r.teid_out))
    ∷ (codes "Dst-IP", unless_zero r.dst_ip (ip_string (uint32_to_ip r.dst_ip)))
    ∷ (codes "Src-IP", unless_zero r.src_ip (ip_string (uint32_to_ip r.src_ip)))
    ∷ (codes "Rate-PPS", unless_zero r.rate_pps (decimal r.rate_pps))
    ∷ (codes "Q-Threshold", unless_zero r.quarantine_threshold (decimal r.quarantine_threshold))
    ∷ (codes "Q-Seconds", unless_zero r.quarantine_seconds (decimal r.quarantine_seconds))
    ∷ []

abbrev pub common_labels : List Bytes
common_labels =
    codes "Out-Iface"
    ∷ codes "DMac"
    ∷ codes "SMac"
    ∷ codes "Teid-Out"
    ∷ codes "Dst-IP"
    ∷ codes "Src-IP"
    ∷ codes "Rate-PPS"
    ∷ codes "Q-Threshold"
    ∷ codes "Q-Seconds"
    ∷ []

unfoldable pub labels : Target → List Bytes
labels teid_target = common_labels ++ codes "Dst-Port" ∷ []
labels ueip_target = common_labels
