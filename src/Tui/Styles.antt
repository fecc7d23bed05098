-- ===== src/Tui/Styles.antt =====
-- What the drawing code relies on of github.com/charmbracelet/lipgloss and of the errors.
use ebpf_packet_router.Std.Text.{Bytes}
use ebpf_packet_router.Errors.{Error}

-- `Render` of panelStyle, titleStyle, footerStyle and errorStyle, and the text of an error
pub record Styles : Type 0 where
  pub panel : Bytes → Bytes
  pub title : Bytes → Bytes
  pub footer : Bytes → Bytes
  pub error : Bytes → Bytes
  pub error_text : Error → Bytes
