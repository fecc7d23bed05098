-- ===== src/Tui/Form/Starting.antt =====
-- A form starts with its focus and its picker in place.
use ebpf_packet_router.Prelude.{
  ℕ, suc, ◌+◌, ◌<◌, true, false, List, [], ◌∷◌, arith, length, Option, none, some,
}
use ebpf_packet_router.Std.Text.{Bytes}
use ebpf_packet_router.Maps.Types.{FwdRule}
use ebpf_packet_router.Cmd.Flags.{Interfaces}
use ebpf_packet_router.Tui.TextInput.{TextInput}
use ebpf_packet_router.Tui.Form.{edit_fields, default_fields, new_add_form, new_edit_form, total}
use ebpf_packet_router.Tui.Form.Texts.{
  Target, action_options, action_index_from, edit_action, key_placeholder, format_key,
}
use ebpf_packet_router.Tui.Form.Places.{IsInPlace, sync_focus-IsInPlace}

module _ (I : TextInput) where
  action_index_from_lt :
      (i : ℕ) (names : List Bytes) (a : ℕ)
      → 0 < i + length names
      → action_index_from i names a < i + length names
  unfolding action_index_from
  action_index_from_lt i [] a h = h
  action_index_from_lt i (name ∷ names) a h =
      ground (arith, action_index_from_lt (suc i) names a (omega arith))

  edit_action_lt : (rule : Option FwdRule) → edit_action rule < length action_options
  unfolding edit_action
  edit_action_lt none = omega arith
  edit_action_lt (some r) = action_index_from_lt 0 action_options r.action (omega arith)

  -- The form that adds a rule starts in place.
  pub new_add_form-IsInPlace : (target : Target) → IsInPlace I (new_add_form I target)
  unfolding new_add_form
  new_add_form-IsInPlace target =
      sync_focus-IsInPlace I
        (record {
          target = target;
          editing = false;
          orig_key = 0;
          key_input = I.new_text_input (key_placeholder target);
          action_idx = 0;
          fields = default_fields I target;
          focus_idx = 0;
          err = none;
        })
        (record { focus = unfold total in omega arith; action = omega arith })

  -- So does the form that edits one.
  pub new_edit_form-IsInPlace :
      (ifaces : Interfaces) (target : Target) (key : ℕ) (rule : Option FwdRule)
      → IsInPlace I (new_edit_form I ifaces target key rule)
  unfolding new_edit_form
  new_edit_form-IsInPlace ifaces target key rule =
      sync_focus-IsInPlace I
        (record {
          target = target;
          editing = true;
          orig_key = key;
          key_input =
              I.set_value (format_key target key) (I.new_text_input (key_placeholder target));
          action_idx = edit_action rule;
          fields = edit_fields I ifaces target rule;
          focus_idx = 0;
          err = none;
        })
        (record { focus = unfold total in omega arith; action = edit_action_lt rule })
