-- ===== src/Tui/Form/Update.antt =====
-- `updateForm` of form.go: what a key does while the form is shown. The command of an input that
-- makes its cursor blink is left out.
use ebpf_packet_router.Prelude.{
  ℕ, zero, suc, ◌+◌, ◌-◌, ◌%◌, Bool, true, false, ◌&&◌, List, [], ◌∷◌, some, Result, ok, err,
  length, if◌then◌else◌,
}
use ebpf_packet_router.Std.Text.{codes, bytes_eq}
use ebpf_packet_router.Errors.{Error}
use ebpf_packet_router.Maps.Types.{FwdRule, uint32_to_ip}
use ebpf_packet_router.Maps.Tables.Interface.{EbpfMap}
use ebpf_packet_router.Maps.Tables.Wrappers.{teid_put, ueip_put}
use ebpf_packet_router.Cmd.Exec.{Kernel, Exec, on_teid_table, on_ueip_table}
use ebpf_packet_router.Cmd.Flags.{Interfaces}
use ebpf_packet_router.Tui.TextInput.{TextInput}
use ebpf_packet_router.Tui.Form.{
  Form, Field, Focus, key_focus, action_focus, field_focus, total, kind_at, sync_focus,
}
use ebpf_packet_router.Tui.Form.Texts.{Target, teid_target, ueip_target, action_options}
use ebpf_packet_router.Tui.Form.Build.{build_rule}

module _ {E : EbpfMap FwdRule} {T : EbpfMap ℕ} where
  abbrev pub put_rule : Target → ℕ → FwdRule → Exec (Kernel E T) (Unit {0})
  put_rule teid_target key rule = on_teid_table (teid_put E key rule)
  put_rule ueip_target key rule = on_ueip_table (ueip_put E (uint32_to_ip key) rule)

module _ (I : TextInput) where
  open I use {KeyMsg, key_name, update}

  -- the form stays, the dashboard returns to its view, or it does so and fetches the tables again
  pub data Next : Type 0 where
    stays : Form I → Next
    cancelled : Next
    saved : Next

  abbrev pub is_action : Focus → Bool
  is_action key_focus = false
  is_action action_focus = true
  is_action (field_focus i) = false

  unfoldable pub focus_next : Form I → Form I
  unfolding total sync_focus
  focus_next f = sync_focus I (record f { focus_idx = (f.focus_idx + 1) % total I f })

  -- the sum comes first, and total is not 0
  unfoldable pub focus_previous : Form I → Form I
  unfolding total sync_focus
  focus_previous f =
      sync_focus I (record f { focus_idx = (f.focus_idx + total I f - 1) % total I f })

  unfoldable pub action_next : Form I → Form I
  action_next f = record f { action_idx = (f.action_idx + 1) % length action_options }

  unfoldable pub action_previous : Form I → Form I
  action_previous f = record f {
    action_idx = (f.action_idx + length action_options - 1) % length action_options;
  }

  abbrev pub update_at : KeyMsg → ℕ → List (Field I) → List (Field I)
  update_at msg i [] = []
  update_at msg zero (f ∷ fs) = record f { input = update msg f.input } ∷ fs
  update_at msg (suc i) (f ∷ fs) = f ∷ update_at msg i fs

  abbrev pub update_input : KeyMsg → Focus → Form I → Form I
  update_input msg key_focus f = record f { key_input = update msg f.key_input }
  update_input msg action_focus f = f
  update_input msg (field_focus i) f = record f { fields = update_at msg i f.fields }

  -- any other key goes to the input that has the focus
  unfoldable pub forward : KeyMsg → Form I → Form I
  unfolding kind_at
  forward msg f = update_input msg (kind_at I f f.focus_idx) f

  abbrev pub next_of : Form I → Result Error (Unit {0}) → Next
  next_of f (ok _) = saved
  next_of f (err e) = stays (record f { err = some e })

  module _ {E : EbpfMap FwdRule} {T : EbpfMap ℕ} where
    abbrev pub write_rule : Form I → Result Error (ℕ × FwdRule) → Kernel E T → Next × Kernel E T
    write_rule f (err e) s = (stays (record f { err = some e }), s)
    write_rule f (ok (key, rule)) s =
        let (r, s') = put_rule f.target key rule s in (next_of f r, s')

    -- "enter"
    unfoldable pub submit : Interfaces → Form I → Kernel E T → Next × Kernel E T
    unfolding build_rule
    submit ifaces f s = write_rule f (build_rule I ifaces f) s

    unfoldable pub update_form : Interfaces → KeyMsg → Form I → Kernel E T → Next × Kernel E T
    unfolding focus_next focus_previous action_next action_previous forward submit kind_at
    update_form ifaces msg f s =
        let is = bytes_eq (key_name msg) in
        if is (codes "esc")
        then (cancelled, s)
        else if is (codes "tab")
        then (stays (focus_next f), s)
        else if is (codes "shift+tab")
        then (stays (focus_previous f), s)
        else if is (codes "left") && is_action (kind_at I f f.focus_idx)
        then (stays (action_previous f), s)
        else if is (codes "right") && is_action (kind_at I f f.focus_idx)
        then (stays (action_next f), s)
        else if is (codes "enter")
        then submit ifaces f s
        else (stays (forward msg f), s)
