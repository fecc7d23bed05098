-- ===== src/Tui/Form.antt =====
-- gtp-router/control/tui/form.go: the form that adds and edits a rule, with its fields and its focus.
pub mod Texts
pub mod Build
pub mod Update
pub mod Places
pub mod Starting
pub mod Values
pub mod Reading
pub mod Editable
pub mod Editing
pub mod Agreement
pub mod Saving
pub mod Drawing
pub mod Keys
use ebpf_packet_router.Prelude.{
  ℕ, zero, suc, ◌+◌, ◌-◌, Bool, true, false, not, ◌&&◌, List, [], ◌∷◌, ◌++◌, Option, none, some, ok,
  err, Result, ◌==◌, length, if◌then◌else◌,
}
use ebpf_packet_router.Std.Text.{Bytes, codes, bytes_eq, trim_space}
use ebpf_packet_router.Std.Number.{decimal, hex8}
use ebpf_packet_router.Std.Address.{ip_string}
use ebpf_packet_router.Errors.{Error}
use ebpf_packet_router.Maps.Types.{FwdRule, Mac, zero_mac, parse_action, mac_string, uint32_to_ip}
use ebpf_packet_router.Cmd.Flags.{Interfaces}
use ebpf_packet_router.Tui.TextInput.{TextInput}
use ebpf_packet_router.Tui.Form.Texts.{
  Target, key_placeholder, format_key, edit_action, edit_values, labels,
}

-- what a focus index refers to
pub data Focus : Type 0 where
  key_focus : Focus
  action_focus : Focus
  field_focus : ℕ → Focus

module _ (I : TextInput) where
  open I use {Model, new_text_input, value, set_value, focus, blur}

  pub record Field : Type 0 where
    pub label : Bytes
    pub input : Model

  pub record Form : Type 0 where
    pub target : Target
    pub editing : Bool
    pub orig_key : ℕ
    pub key_input : Model
    pub action_idx : ℕ
    pub fields : List Field
    pub focus_idx : ℕ
    pub err : Option Error

  unfoldable pub fields_of : List Bytes → List Field
  fields_of [] = []
  fields_of (l ∷ ls) = record { label = l; input = new_text_input [] } ∷ fields_of ls

  unfoldable pub default_fields : Target → List Field
  unfolding fields_of labels
  default_fields target = fields_of (labels target)

  unfoldable pub field_value : List Field → Bytes → Bytes
  field_value [] label = []
  field_value (f ∷ fs) label =
      if bytes_eq f.label label then trim_space (value f.input) else field_value fs label

  unfoldable pub set_field_value : List Field → Bytes → Bytes → List Field
  set_field_value [] label val = []
  set_field_value (f ∷ fs) label val =
      (if bytes_eq f.label label then record f { input = set_value val f.input } else f)
      ∷ set_field_value fs label val

  -- the key field in add mode, the action picker, and the fields
  unfoldable pub total : Form → ℕ
  total f = (if f.editing then 1 else 2) + length f.fields

  unfoldable pub kind_at : Form → ℕ → Focus
  kind_at f idx =
      if f.editing
      then (if idx == 0 then action_focus else field_focus (idx - 1))
      else if idx == 0
      then key_focus
      else if idx == 1
      then action_focus
      else field_focus (idx - 2)

  abbrev pub blur_all : List Field → List Field
  blur_all [] = []
  blur_all (f ∷ fs) = record f { input = blur f.input } ∷ blur_all fs

  abbrev focus_at : ℕ → List Field → List Field
  focus_at i [] = []
  focus_at zero (f ∷ fs) = record f { input = focus f.input } ∷ fs
  focus_at (suc i) (f ∷ fs) = f ∷ focus_at i fs

  abbrev give_focus : Focus → Form → Form
  give_focus key_focus f = record f { key_input = focus f.key_input }
  give_focus action_focus f = f
  give_focus (field_focus i) f = record f { fields = focus_at i f.fields }

  unfoldable pub sync_focus : Form → Form
  unfolding kind_at
  sync_focus f = give_focus (kind_at f f.focus_idx) (record f {
    key_input = if f.editing then f.key_input else blur f.key_input;
    fields = blur_all f.fields;
  })

  unfoldable pub new_add_form : Target → Form
  unfolding key_placeholder default_fields sync_focus
  new_add_form target = sync_focus (record {
    target = target;
    editing = false;
    orig_key = 0;
    key_input = new_text_input (key_placeholder target);
    action_idx = 0;
    fields = default_fields target;
    focus_idx = 0;
    err = none;
  })

  -- `if … { setFieldValue(f.fields, label, text) }` for each label
  unfoldable pub prefill : List Field → List (Bytes × Option Bytes) → List Field
  unfolding set_field_value
  prefill fields [] = fields
  prefill fields ((label, none) ∷ texts) = prefill fields texts
  prefill fields ((label, some text) ∷ texts) = prefill (set_field_value fields label text) texts

  abbrev pub edit_fields : Interfaces → Target → Option FwdRule → List Field
  edit_fields ifaces target none = default_fields target
  edit_fields ifaces target (some r) = prefill (default_fields target) (edit_values ifaces r)

  -- the rule is nil if the row has vanished
  unfoldable pub new_edit_form : Interfaces → Target → ℕ → Option FwdRule → Form
  unfolding key_placeholder format_key default_fields prefill edit_values sync_focus
  new_edit_form ifaces target key rule = sync_focus (record {
    target = target;
    editing = true;
    orig_key = key;
    key_input = set_value (format_key target key) (new_text_input (key_placeholder target));
    action_idx = edit_action rule;
    fields = edit_fields ifaces target rule;
    focus_idx = 0;
    err = none;
  })
