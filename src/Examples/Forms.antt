-- ===== src/Examples/Forms.antt =====
-- Forms that are opened, changed and submitted.
use ebpf_packet_router.Prelude.{◌>>=◌, ◌≡◌, refl, ap, length, arith, inr, some, ok}
use ebpf_packet_router.Std.Text.{codes}
use ebpf_packet_router.Std.Address.{ip_string}
use ebpf_packet_router.Std.Number.{decimal}
use ebpf_packet_router.Errors.{nat_ip_flag}
use ebpf_packet_router.Maps.Types.{uint32_to_ip}
use ebpf_packet_router.Maps.Tables.Wrappers.{ip_key}
use ebpf_packet_router.Cmd.AddUeip.Rule.{parse_ueip}
use ebpf_packet_router.Cmd.Delete.{any_ip}
use ebpf_packet_router.Maps.Validate.{validate_rule}
use ebpf_packet_router.Maps.Validate.Laws.{validate_rule-eq-ok}
use ebpf_packet_router.Cmd.Flags.{interface_by_name, ipv4_flag}
use ebpf_packet_router.Tui.Form.{Form, new_edit_form, new_add_form}
use ebpf_packet_router.Tui.Form.Texts.{ueip_target, interface_by_index}
use ebpf_packet_router.Tui.Form.Build.{build_rule, build_key}
use ebpf_packet_router.Tui.Form.Update.{update_form}
use ebpf_packet_router.Tui.Form.Editable.{IsNamed, IsEditable, resubmitted}
use ebpf_packet_router.Tui.Form.Editing.{build_rule-edit}
use ebpf_packet_router.Tui.Form.Keys.{keys-ip_string}
use ebpf_packet_router.Tui.Form.Saving.{Outcome, update_form-Outcome}
use ebpf_packet_router.Examples.Inputs.{text_inputs}
use ebpf_packet_router.Examples.Data.{interfaces, kernel, tunnel_rule}

accepted : validate_rule tunnel_rule ≡ ok tt
unfolding validate_rule
accepted = refl

veth-IsNamed : IsNamed interfaces 4
unfolding interface_by_index interface_by_name
veth-IsNamed = record {
  name = codes "veth-ran";
  by_index = refl;
  by_name = refl;
  name_given = λ e. omega (arith, ap length e);
  kept = (ground arith, omega arith);
}

tunnel_rule-IsEditable : IsEditable interfaces tunnel_rule
tunnel_rule-IsEditable = record {
  complete = (validate_rule-eq-ok tunnel_rule).0 accepted;
  egress = inr veth-IsNamed;
  narrow_ifindex = omega arith;
  dmac = record { six = refl; bytes = ground arith };
  smac = record { six = refl; bytes = ground arith };
  narrow_teid_out = omega arith;
  narrow_dst_ip = omega arith;
  narrow_src_ip = omega arith;
  narrow_rate_pps = omega arith;
  narrow_threshold = omega arith;
  narrow_seconds = omega arith;
}

build_rule-edit_example :
    build_rule text_inputs interfaces
      (new_edit_form text_inputs interfaces ueip_target 0x0A010002 (some tunnel_rule))
    ≡ ok (0x0A010002, resubmitted tunnel_rule)
build_rule-edit_example =
    build_rule-edit interfaces tunnel_rule tunnel_rule-IsEditable text_inputs ueip_target 0x0A010002

update_form-Outcome_example :
    Outcome text_inputs interfaces
      (new_edit_form text_inputs interfaces ueip_target 0x0A010002 (some tunnel_rule))
      kernel
      (update_form text_inputs interfaces
        (codes "enter")
        (new_edit_form text_inputs interfaces ueip_target 0x0A010002 (some tunnel_rule))
        kernel).0
      (update_form text_inputs interfaces
        (codes "enter")
        (new_edit_form text_inputs interfaces ueip_target 0x0A010002 (some tunnel_rule))
        kernel).1
update_form-Outcome_example =
    update_form-Outcome text_inputs interfaces
      (new_edit_form text_inputs interfaces ueip_target 0x0A010002 (some tunnel_rule)) kernel
      (codes "enter")

-- a form that adds a rule, with the key that list prints typed into it
abbrev typed_form : Form text_inputs
typed_form = record (new_add_form text_inputs ueip_target) { key_input = codes "10.1.0.2" }

shown : codes "10.1.0.2" ≡ ip_string (uint32_to_ip 0x0A010002)
unfolding ip_string uint32_to_ip decimal
shown = refl

keys-ip_string_example :
    ((any_ip (ip_string (uint32_to_ip 0x0A010002)) >>= ip_key) ≡ ok 0x0A010002)
    × ((parse_ueip (ip_string (uint32_to_ip 0x0A010002)) >>= ip_key) ≡ ok 0x0A010002)
    × ((ipv4_flag nat_ip_flag (ip_string (uint32_to_ip 0x0A010002)) >>= ip_key) ≡ ok 0x0A010002)
    × (build_key text_inputs typed_form ≡ ok 0x0A010002)
unfolding new_add_form
keys-ip_string_example =
    keys-ip_string 0x0A010002 (omega arith) nat_ip_flag text_inputs typed_form refl refl shown
