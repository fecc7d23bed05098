-- ===== src/Tui/TextInput.antt =====
-- What the form relies on of github.com/charmbracelet/bubbles/textinput, with the limit of 64
-- characters that `newTextInput` sets, and of the key messages of bubbletea.
use ebpf_packet_router.Prelude.{◌≤◌, ◌≡◌, [], All, length}
use ebpf_packet_router.Std.Text.{Bytes}
use ebpf_packet_router.Std.Text.Laws.{IsGraphic}

pub record TextInput : Type 1 where
  pub Model : Type 0
  -- `tea.KeyMsg`, and its `String`
  pub KeyMsg : Type 0
  pub key_name : KeyMsg → Bytes
  -- `newTextInput` with a placeholder
  pub new_text_input : Bytes → Model
  pub value : Model → Bytes
  pub set_value : Bytes → Model → Model
  pub focus : Model → Model
  pub blur : Model → Model
  pub update : KeyMsg → Model → Model
  -- the text that the input shows, with its prompt, its cursor and its placeholder
  pub view : Model → Bytes
  pub value-new_text_input : (placeholder : Bytes) → value (new_text_input placeholder) ≡ []
  -- a text within the limit and without control characters is kept as it is
  pub value-set_value :
      (s : Bytes) (m : Model) → All IsGraphic s → length s ≤ 64 → value (set_value s m) ≡ s
  pub value-focus : (m : Model) → value (focus m) ≡ value m
  pub value-blur : (m : Model) → value (blur m) ≡ value m
