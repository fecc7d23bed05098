-- ===== src/Tui/Form/Editing.antt =====
-- What a rule becomes when it is edited and submitted without a change.
use ebpf_packet_router.Prelude.{
  ℕ, zero, suc, ◌≡◌, refl, ap, ◌∙◌, true, [], some, arith, All, ok, Result, wrap, get_or,
}
use ebpf_packet_router.Std.Text.{Bytes, codes}
use ebpf_packet_router.Errors.{
  Error, parsing, within_context, dmac_flag, smac_flag, teid_out_flag, dst_ip_flag, src_ip_flag,
  rate_pps_flag, q_threshold_flag, q_seconds_flag,
}
use ebpf_packet_router.Maps.Types.{FwdRule, zero_mac, parse_action}
use ebpf_packet_router.Maps.Validate.Laws.{validate_rule-eq-ok}
use ebpf_packet_router.Cmd.Flags.{Interfaces, optional, mac_flag}
use ebpf_packet_router.Tui.TextInput.{TextInput}
use ebpf_packet_router.Tui.Form.{new_edit_form, default_fields, fields_of, field_value}
use ebpf_packet_router.Tui.Form.Texts.{
  Target, teid_target, ueip_target, labels, common_labels, edit_values, edit_action, action_index,
  action_options,
}
use ebpf_packet_router.Tui.Form.Build.{
  interface_field, address_field, number_field, parse_hex_or_dec, port_field, build_key, build_port,
  build_rule,
}
use ebpf_packet_router.Tui.Form.Values.{text_at, has_label, field_value-new_edit_form}
use ebpf_packet_router.Tui.Form.Reading.{number_text, teid_text_value, address_text, mac_text_value}
use ebpf_packet_router.Tui.Form.Editable.{
  IsEditable, reopened, resubmitted, egress_text, resubmitted-IsComplete, edit_values-IsKept,
}

action_index-reopened :
    (a : ℕ) → parse_action (get_or action_options (action_index a) []) ≡ ok (reopened a)
unfolding action_index parse_action
action_index-reopened zero = refl
action_index-reopened (suc zero) = refl
action_index-reopened (suc (suc zero)) = refl
action_index-reopened (suc (suc (suc zero))) = refl
action_index-reopened (suc (suc (suc (suc a)))) = ground arith

labelled :
    (I : TextInput) (target : Target)
    → All (λ l. has_label I (default_fields I target) l ≡ true) common_labels
unfolding default_fields fields_of labels
labelled I teid_target = (refl, (refl, (refl, (refl, (refl, (refl, (refl, (refl, (refl, tt)))))))))
labelled I ueip_target = (refl, (refl, (refl, (refl, (refl, (refl, (refl, (refl, (refl, tt)))))))))

port_label : (I : TextInput) → has_label I (default_fields I teid_target) (codes "Dst-Port") ≡ true
unfolding default_fields fields_of labels
port_label I = refl

module _ (ifaces : Interfaces) (r : FwdRule) (editable : IsEditable ifaces r) where
  -- a form for a TEID starts without a port, and any other form has no field for one
  build_port_none :
      (I : TextInput) (target : Target) (key : ℕ)
      → build_port I target
          (field_value I (new_edit_form I ifaces target key (some r)).fields (codes "Dst-Port"))
        ≡ ok 0
  unfolding edit_values
  build_port_none I teid_target key = ap (optional 0 port_field) (
      field_value-new_edit_form I ifaces teid_target key r (codes "Dst-Port") (port_label I)
        (edit_values-IsKept ifaces r editable))
  build_port_none I ueip_target key = refl

  module _ (I : TextInput) (target : Target) (key : ℕ) where
    read_field :
        {A : Type 0} (d : A) (parse : Bytes → Result Error A) (l : Bytes) {v : A}
        → has_label I (default_fields I target) l ≡ true
        → optional d parse (text_at l (edit_values ifaces r) []) ≡ ok v
        → optional d parse (field_value I (new_edit_form I ifaces target key (some r)).fields l)
          ≡ ok v
    read_field d parse l has e =
        ap (optional d parse) (
          field_value-new_edit_form I ifaces target key r l has
            (edit_values-IsKept ifaces r editable))
        ∙ e

    build_key-edit : build_key I (new_edit_form I ifaces target key (some r)) ≡ ok key
    unfolding build_key new_edit_form
    build_key-edit = refl

    action-edit :
        parse_action
          (get_or action_options (new_edit_form I ifaces target key (some r)).action_idx [])
        ≡ ok (reopened r.action)
    unfolding new_edit_form edit_action
    action-edit = action_index-reopened r.action

    build_port-edit :
        build_port I
          (new_edit_form I ifaces target key (some r)).target
          (field_value I (new_edit_form I ifaces target key (some r)).fields (codes "Dst-Port"))
        ≡ ok 0
    build_port-edit = unfold new_edit_form in build_port_none I target key

    -- For a complete rule in the widths of its fields whose egress interface, if it has one, the
    -- host knows by name and by index: the form that edits it builds, if it is submitted as it
    -- starts, the same key and a rule with the same action, or drop if it is none of the four that
    -- the form can name, the same egress, MACs, tunnel and limits, and with zero in every other
    -- field, so that the port, the address of the subscriber, the counters and the state of the
    -- quarantine are lost.
    pub build_rule-edit :
        build_rule I ifaces (new_edit_form I ifaces target key (some r)) ≡ ok (key, resubmitted r)
    unfolding build_rule edit_values
    build_rule-edit =
        let (h0, (h1, (h2, (h3, (h4, (h5, (h6, (h7, (h8, _))))))))) = labelled I target in
        let out_ifindex =
          read_field 0 (interface_field ifaces) (codes "Out-Iface") h0
            (egress_text ifaces r editable) in
        let dmac =
          read_field zero_mac (mac_flag dmac_flag) (codes "DMac") h1
            (mac_text_value dmac_flag r.dmac editable.dmac) in
        let smac =
          read_field zero_mac (mac_flag smac_flag) (codes "SMac") h2
            (mac_text_value smac_flag r.smac editable.smac) in
        let teid_out =
          read_field 0 (λ v. wrap (within_context (parsing teid_out_flag)) (parse_hex_or_dec v))
            (codes "Teid-Out") h3
            (teid_text_value (within_context (parsing teid_out_flag)) r.teid_out
              editable.narrow_teid_out) in
        let dst_ip =
          read_field 0 (address_field dst_ip_flag) (codes "Dst-IP") h4
            (address_text dst_ip_flag r.dst_ip editable.narrow_dst_ip) in
        let src_ip =
          read_field 0 (address_field src_ip_flag) (codes "Src-IP") h5
            (address_text src_ip_flag r.src_ip editable.narrow_src_ip) in
        let rate_pps =
          read_field 0 (number_field rate_pps_flag 32) (codes "Rate-PPS") h6
            (number_text rate_pps_flag r.rate_pps editable.narrow_rate_pps) in
        let threshold =
          read_field 0 (number_field q_threshold_flag 32) (codes "Q-Threshold") h7
            (number_text q_threshold_flag r.quarantine_threshold editable.narrow_threshold) in
        let seconds =
          read_field 0 (number_field q_seconds_flag 32) (codes "Q-Seconds") h8
            (number_text q_seconds_flag r.quarantine_seconds editable.narrow_seconds) in
        let valid =
          (validate_rule-eq-ok (resubmitted r)).1 (resubmitted-IsComplete ifaces r editable) in
        rw (
          action-edit, build_key-edit, out_ifindex, dmac, smac, teid_out, dst_ip, src_ip, rate_pps,
          threshold, seconds, build_port-edit, valid,
        )
