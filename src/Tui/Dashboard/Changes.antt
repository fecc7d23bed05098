-- ===== src/Tui/Dashboard/Changes.antt =====
-- What messages and keys do to the state in dashboard.go alone.
use ebpf_packet_router.Prelude.{
  ℕ, ◌+◌, ◌*◌, ◌-◌, Bool, true, false, List, ◌++◌, Option, none, some, Result, ok, err, ℤ, pos,
  sub_ℕ, length, if◌then◌else◌,
}
use ebpf_packet_router.Std.Text.{Bytes, codes}
use ebpf_packet_router.Std.Float64.{Float64}
use ebpf_packet_router.Errors.{Error}
use ebpf_packet_router.Maps.Types.{FwdRule}
use ebpf_packet_router.Tui.TextInput.{TextInput}
use ebpf_packet_router.Tui.Form.{new_add_form, new_edit_form}
use ebpf_packet_router.Tui.Form.Update.{Next, stays, cancelled, saved}
use ebpf_packet_router.Tui.Dashboard.State.{
  Host, Snapshot, mode_view, mode_form, mode_confirm_delete, Command, no_command, fetch, start_ping,
  stop_ping, Dash,
}
use ebpf_packet_router.Tui.Dashboard.Rows.{build_rows, format_teid, format_ueip}
use ebpf_packet_router.Tui.Dashboard.Selection.{clamp, focus_target, selected_rule}

abbrev pub second : ℕ
second = 1000000000

module _ (I : TextInput) (Fl : Float64) where
  open I use {KeyMsg, key_name}

  -- a notice in the footer for some seconds
  abbrev pub notice : Host → ℕ → Bytes → Dash I Fl → Dash I Fl
  notice host seconds text d = record d {
    status_msg = text;
    status_until = host.now + seconds * second;
  }

  abbrev ping_text : Bool → Option Bytes → Bytes → Bytes
  ping_text on (some e) target = codes "ping: " ++ e
  ping_text true none target =
      codes "ping started -> " ++ (target ++ codes " (output in the traffic pane)")
  ping_text false none target = codes "ping stopped"

  unfoldable pub on_ping : Host → Bool → Option Bytes → Dash I Fl → Dash I Fl
  on_ping host on e d = notice host 4 (ping_text on e d.ping_target) (record d { ping_on = on })

  abbrev copy_text : Bytes → Option Bytes → Bytes
  copy_text path (some e) = codes "snapshot failed: " ++ e
  copy_text path none =
      codes "saved snapshot to " ++ (path ++ codes " (cat it, or copy from your editor)")

  unfoldable pub on_copy : Host → Bytes → Option Bytes → Dash I Fl → Dash I Fl
  on_copy host path e d = notice host 6 (copy_text path e) d

  abbrev pub last_index : List ℕ → ℤ
  last_index ks = pos (length ks - 1)

  -- a dataMsg without an error
  unfoldable pub on_snapshot : Snapshot → Dash I Fl → Dash I Fl
  unfolding clamp build_rows
  on_snapshot m d =
      let elapsed =
        if d.have_data then Fl.seconds (sub_ℕ m.fetched_at d.last_at) else Fl.zero_float in
      let (teid_keys, teid_rows) =
        build_rows Fl m.teid d.last_teid elapsed d.have_data format_teid in
      let (ueip_keys, ueip_rows) =
        build_rows Fl m.ueip d.last_ueip elapsed d.have_data format_ueip in
      record d {
        err = none;
        teid_keys = teid_keys;
        teid_rows = teid_rows;
        ueip_keys = ueip_keys;
        ueip_rows = ueip_rows;
        teid_selected = clamp d.teid_selected (pos 0) (last_index teid_keys);
        ueip_selected = clamp d.ueip_selected (pos 0) (last_index ueip_keys);
        last_teid = m.teid;
        last_ueip = m.ueip;
        prev_stat = d.last_stat;
        last_stat = some m.counters;
        elapsed = elapsed;
        last_at = m.fetched_at;
        have_data = true;
        updated_at = m.fetched_at;
      }

  abbrev pub on_data : Result Error Snapshot → Dash I Fl → Dash I Fl
  on_data (err e) d = record d { err = some e }
  on_data (ok m) d = on_snapshot m d

  abbrev pub toggle_ping : Dash I Fl → Command
  toggle_ping d =
      if d.ping_on
      then stop_ping d.ping_target
      else start_ping d.ping_netns d.ping_interval d.ping_size d.ping_target

  abbrev pub defaults_added : Host → Dash I Fl → Result Error (Unit {0}) → Dash I Fl × Command
  defaults_added host d (err e) = (record d { err = some e }, no_command)
  defaults_added host d (ok _) = (
    notice host 4 (codes "added default test rules (2 TEID, 1 UE-IP; two under policy)") d,
    fetch,
  )

  -- "a"
  unfoldable pub open_add : Dash I Fl → Dash I Fl
  unfolding focus_target
  open_add d = record d { mode = mode_form; form = some (new_add_form I (focus_target I Fl d)) }

  abbrev pub edit_row : Host → Option (ℕ × Option FwdRule) → Dash I Fl → Dash I Fl
  edit_row host none d = d
  edit_row host (some (key, rule)) d = record d {
    mode = mode_form;
    form = some (new_edit_form I host.ifaces (focus_target I Fl d) key rule);
  }

  -- "e"
  unfoldable pub open_edit : Host → Dash I Fl → Dash I Fl
  unfolding focus_target selected_rule
  open_edit host d = edit_row host (selected_rule I Fl d) d

  abbrev pub confirm_row : Option (ℕ × Option FwdRule) → Dash I Fl → Dash I Fl
  confirm_row none d = d
  confirm_row (some (key, _)) d = record d {
    mode = mode_confirm_delete;
    confirm_target = some (focus_target I Fl d);
    confirm_key = key;
  }

  -- "d"
  unfoldable pub open_confirm : Dash I Fl → Dash I Fl
  unfolding focus_target selected_rule
  open_confirm d = confirm_row (selected_rule I Fl d) d

  abbrev pub deleted : Dash I Fl → Result Error (Unit {0}) → Dash I Fl × Command
  deleted d (err e) = (record d { mode = mode_view; err = some e }, no_command)
  deleted d (ok _) = (record d { mode = mode_view }, fetch)

  -- what the form does to the dashboard
  abbrev pub after_form : Next I → Dash I Fl → Dash I Fl × Command
  after_form (stays f) d = (record d { form = some f }, no_command)
  after_form cancelled d = (record d { mode = mode_view; form = none }, no_command)
  after_form saved d = (record d { mode = mode_view; form = none }, fetch)
