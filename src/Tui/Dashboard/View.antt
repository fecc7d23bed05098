-- ===== src/Tui/Dashboard/View.antt =====
-- `View` of dashboard.go. How lipgloss renders a text in a style is a parameter.
pub mod Manual
use ebpf_packet_router.Prelude.{
  ℕ, zero, suc, Bool, true, false, ◌||◌, not, List, [], ◌∷◌, ◌++◌, Option, none, some, ◌==◌, ltb,
  get_or, ℤ, negsuc, if◌then◌else◌,
}
use ebpf_packet_router.Std.Text.{Bytes, codes, newline}
use ebpf_packet_router.Std.Number.{hex8}
use ebpf_packet_router.Std.Address.{ip_string}
use ebpf_packet_router.Std.Pad.{pad_right}
use ebpf_packet_router.Std.Float64.{Float64}
use ebpf_packet_router.Errors.{Error}
use ebpf_packet_router.Maps.Types.{uint32_to_ip}
use ebpf_packet_router.Tui.TextInput.{TextInput}
use ebpf_packet_router.Tui.Form.{Form, Field, Focus, key_focus, action_focus, field_focus, kind_at}
use ebpf_packet_router.Tui.Form.Texts.{Target, teid_target, ueip_target, action_options}
use ebpf_packet_router.Tui.Form.Update.{is_action}
use ebpf_packet_router.Tui.Dashboard.State.{
  Host, Mode, mode_view, mode_form, mode_confirm_delete, mode_help, PanelFocus, focus_teid,
  focus_ueip, Dash,
}
use ebpf_packet_router.Tui.Dashboard.Render.{teid_panel, ueip_panel, render_enforcement, dash_stats}
use ebpf_packet_router.Tui.Dashboard.View.Manual.{manual}
use ebpf_packet_router.Tui.Styles.{Styles}
use ebpf_packet_router.Tui.Form.Drawing.{render_form, target_text}

module _ (St : Styles) (I : TextInput) where
  open St use {panel, title, footer, error, error_text}

  -- "" is no target yet
  abbrev confirm_text : Option Target → Bytes
  confirm_text none = []
  confirm_text (some target) = target_text target

  abbrev confirm_label : Option Target → ℕ → Bytes
  confirm_label (some ueip_target) key = ip_string (uint32_to_ip key)
  confirm_label (some teid_target) key = codes "0x" ++ hex8 key
  confirm_label none key = codes "0x" ++ hex8 key

  unfoldable pub render_confirm : Option Target → ℕ → Bytes
  render_confirm target key = panel (
      title (codes "Confirm delete")
      ++ (newline
          ++ (newline
              ++ (codes "Delete "
                  ++ (confirm_text target
                      ++ (codes " rule for "
                          ++ (confirm_label target key
                              ++ (codes " ?"
                                  ++ (newline
                                      ++ (newline
                                          ++ footer (codes "y: confirm   n/esc: cancel")))))))))))

  unfoldable pub render_help : Bytes
  unfolding manual
  render_help =
      panel (title (codes "GTP-U XDP Router - Manual") ++ (newline ++ (newline ++ manual)))

  module _ (Fl : Float64) where
    abbrev header_times : Host → Dash I Fl → Bytes
    header_times host d =
        if not (d.updated_at == 0)
        then codes "   (refresh: "
          ++ (host.duration_text d.interval
              ++ (codes ", updated: " ++ (host.clock_text d.updated_at ++ codes ")")))
        else codes "   (loading...)"

    abbrev header_ping : Dash I Fl → Bytes
    header_ping d =
        if d.ping_on then codes "   ping: ON -> " ++ d.ping_target else codes "   ping: off"

    -- the selection of the panel that has the focus, -1 for the other one
    abbrev teid_marked : Dash I Fl → ℤ
    teid_marked d = elim d.focus [ focus_teid ↦ d.teid_selected | focus_ueip ↦ negsuc 0 ]

    abbrev ueip_marked : Dash I Fl → ℤ
    ueip_marked d = elim d.focus [ focus_teid ↦ negsuc 0 | focus_ueip ↦ d.ueip_selected ]

    abbrev teid_title : PanelFocus → Bytes
    teid_title focus_teid = codes "> teid_map"
    teid_title focus_ueip = codes "  teid_map"

    abbrev ueip_title : PanelFocus → Bytes
    ueip_title focus_teid = codes "  ueip_map"
    ueip_title focus_ueip = codes "> ueip_map"

    abbrev titled : Bytes → Bytes → Bytes
    titled heading body = panel (title heading ++ (newline ++ body))

    abbrev keys_footer : Bytes
    keys_footer = footer (
        codes
          "tab: switch   up/down: select   a: add   e: edit   d: delete   p: ping   t: test rules   c: snapshot   ?: help   q: quit")

    abbrev footer_of : Host → Dash I Fl → Bytes
    footer_of host d =
        if ltb host.now d.status_until
        then footer d.status_msg ++ (newline ++ keys_footer)
        else keys_footer

    unfoldable pub render_view : Host → Dash I Fl → Bytes
    unfolding teid_panel ueip_panel render_enforcement dash_stats
    render_view host d =
        title (codes "GTP-U XDP Router - Live Dashboard")
        ++ (header_times host d
            ++ (header_ping d
                ++ (newline
                    ++ (newline
                        ++ (titled (teid_title d.focus) (teid_panel Fl I d (teid_marked d))
                            ++ (newline
                                ++ (titled (ueip_title d.focus) (ueip_panel Fl I d (ueip_marked d))
                                    ++ (newline
                                        ++ (titled (codes "  enforcement (rate-limit / quarantine)")
                                              (render_enforcement Fl I host d)
                                            ++ (newline
                                                ++ (titled (codes "global verdict counters")
                                                      (dash_stats Fl I d)
                                                    ++ (newline
                                                        ++ (newline ++ footer_of host d)))))))))))))

    unfoldable pub render_error : Error → Bytes
    render_error e =
        error (codes "ERROR: " ++ error_text e)
        ++ (newline
            ++ (newline
                ++ (codes "Is the XDP program loaded? Run: sudo bash tools/setup_netns.sh"
                    ++ (newline ++ (newline ++ footer (codes "q: quit   ctrl+c: quit"))))))

    -- there is a form in its mode; without one, `none` is a panic
    abbrev pub form_view : Option (Form I) → Option Bytes
    form_view none = none
    form_view (some f) = some (render_form St I f)

    abbrev pub mode_text : Mode → Host → Dash I Fl → Option Bytes
    mode_text mode_form host d = form_view d.form
    mode_text mode_confirm_delete host d = some (render_confirm d.confirm_target d.confirm_key)
    mode_text mode_help host d = some render_help
    mode_text mode_view host d = some (render_view host d)

    abbrev pub error_or : Option Error → Option Bytes → Option Bytes
    error_or (some e) page = some (render_error e)
    error_or none page = page

    unfoldable pub view : Host → Dash I Fl → Option Bytes
    unfolding render_form render_confirm render_help render_view render_error
    view host d = error_or d.err (mode_text d.mode host d)
