-- ===== src/Tui/Form/Drawing.antt =====
-- `renderForm` of form.go.
use ebpf_packet_router.Prelude.{
  ℕ, suc, Bool, true, false, List, [], ◌∷◌, ◌++◌, Option, none, some, ◌==◌, get_or, if◌then◌else◌,
}
use ebpf_packet_router.Std.Text.{Bytes, codes, newline}
use ebpf_packet_router.Std.Pad.{pad_right}
use ebpf_packet_router.Errors.{Error}
use ebpf_packet_router.Tui.TextInput.{TextInput}
use ebpf_packet_router.Tui.Form.{Form, Field, Focus, key_focus, action_focus, field_focus, kind_at}
use ebpf_packet_router.Tui.Form.Texts.{Target, teid_target, ueip_target, action_options}
use ebpf_packet_router.Tui.Form.Update.{is_action}
use ebpf_packet_router.Tui.Styles.{Styles}

abbrev marker_if : Bool → Bytes
marker_if here = if here then codes "> " else codes "  "

abbrev is_key_focus : Focus → Bool
is_key_focus key_focus = true
is_key_focus action_focus = false
is_key_focus (field_focus i) = false

abbrev is_field : ℕ → Focus → Bool
is_field i key_focus = false
is_field i action_focus = false
is_field i (field_focus j) = j == i

abbrev pub target_text : Target → Bytes
target_text teid_target = codes "teid"
target_text ueip_target = codes "ueip"

abbrev key_label : Target → Bytes
key_label teid_target = codes "TEID"
key_label ueip_target = codes "UE IP"

module _ (St : Styles) (I : TextInput) where
  open St use {panel, title, footer, error, error_text}

  -- `%s%-10s %s\n`
  abbrev form_line : Bool → Bytes → Bytes → Bytes
  form_line here label text =
      marker_if here ++ (pad_right 10 label ++ (codes " " ++ (text ++ newline)))

  -- the fields from the i-th one on
  unfoldable pub field_lines : Focus → ℕ → List (Field I) → Bytes
  field_lines kind i [] = []
  field_lines kind i (f ∷ fs) =
      form_line (is_field i kind) f.label (I.view f.input) ++ field_lines kind (suc i) fs

  abbrev form_error : Option Error → Bytes
  form_error none = []
  form_error (some e) = newline ++ error (codes "error: " ++ error_text e)

  unfoldable pub render_form : Form I → Bytes
  unfolding field_lines kind_at
  render_form f =
      let kind = kind_at I f f.focus_idx in
      let heading = if f.editing then codes "Edit rule" else codes "Add rule" in
      panel (
        title (heading ++ (codes " (" ++ (target_text f.target ++ codes "_map)")))
        ++ (newline
            ++ (newline
                ++ ((if f.editing
                      then form_line false (key_label f.target)
                          (I.value f.key_input ++ codes " (fixed)")
                      else form_line (is_key_focus kind) (key_label f.target) (I.view f.key_input))
                    ++ (form_line (is_action I kind) (codes "Action")
                          (codes "< " ++ (get_or action_options f.action_idx [] ++ codes " >"))
                        ++ (field_lines kind 0 f.fields
                            ++ (form_error f.err
                                ++ (newline
                                    ++ (newline
                                        ++ footer (
                                            codes
                                              "tab: next field   left/right: change action   enter: submit   esc: cancel"))))))))))
