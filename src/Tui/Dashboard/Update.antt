-- ===== src/Tui/Dashboard/Update.antt =====
-- `Update` of dashboard.go: what a message does in each mode. It returns the next state, the command
-- for bubbletea, and what it has written. `none` is a panic.
use ebpf_packet_router.Prelude.{ℕ, ◌||◌, List, Option, none, some, pos, negsuc, if◌then◌else◌}
use ebpf_packet_router.Std.Text.{codes, bytes_eq}
use ebpf_packet_router.Std.Float64.{Float64}
use ebpf_packet_router.Maps.Types.{FwdRule, uint32_to_ip}
use ebpf_packet_router.Maps.Tables.Interface.{EbpfMap}
use ebpf_packet_router.Maps.Tables.Wrappers.{teid_delete, ueip_delete}
use ebpf_packet_router.Stats.{PerCpuStat}
use ebpf_packet_router.Cmd.Exec.{Kernel, Exec, on_teid_table, on_ueip_table}
use ebpf_packet_router.Tui.TextInput.{TextInput}
use ebpf_packet_router.Tui.Form.{Form}
use ebpf_packet_router.Tui.Form.Texts.{Target, teid_target, ueip_target}
use ebpf_packet_router.Tui.Form.Update.{update_form}
use ebpf_packet_router.Tui.Dashboard.State.{
  Host, Machine, Mode, mode_view, mode_form, mode_confirm_delete, mode_help, Command, no_command,
  fetch, quit, tick_after, batch, copy, Msg, window_size, key_msg, ping_toggled, copy_result,
  tick_msg, data_msg, other_msg, Dash,
}
use ebpf_packet_router.Tui.Dashboard.Selection.{switch_focus, move_selection}
use ebpf_packet_router.Tui.Dashboard.Render.{plain_snapshot}
use ebpf_packet_router.Tui.Dashboard.Defaults.{add_default_rules}
use ebpf_packet_router.Tui.Dashboard.Changes.{
  on_ping, on_copy, on_snapshot, on_data, toggle_ping, defaults_added, open_add, open_edit,
  open_confirm, deleted, after_form,
}
use ebpf_packet_router.Tui.Dashboard.Commands.{stop_ping_sync}

-- the table of the key is that of the target; "" counts as ueip
abbrev pub delete_rule :
    {E : EbpfMap FwdRule} {T : EbpfMap ℕ} → Option Target → ℕ → Exec (Kernel E T) (Unit {0})
delete_rule {E} (some teid_target) key = on_teid_table (teid_delete E key)
delete_rule {E} (some ueip_target) key = on_ueip_table (ueip_delete E (uint32_to_ip key))
delete_rule {E} none key = on_ueip_table (ueip_delete E (uint32_to_ip key))

module _ (I : TextInput) (Fl : Float64) where
  open I use {KeyMsg, key_name}

  abbrev pub Step : Type 0 → Type 0
  Step S = Dash I Fl × Command × S

  module _ {E : EbpfMap FwdRule} {T : EbpfMap ℕ} {M : EbpfMap (List PerCpuStat)} where
    abbrev pub with_tables : Machine E T M → Kernel E T → Machine E T M
    with_tables s k = record s { tables = k }

    -- "q"
    unfoldable pub quit_view : Dash I Fl → Machine E T M → Step (Machine E T M)
    unfolding stop_ping_sync
    quit_view d s = (d, quit, if d.ping_on then stop_ping_sync d.ping_target s else s)

    -- "t"
    unfoldable pub add_tests : Host → Dash I Fl → Machine E T M → Step (Machine E T M)
    unfolding add_default_rules
    add_tests host d s =
        let (r, k) = add_default_rules s.tables in
        let (d', c) = defaults_added I Fl host d r in (d', c, with_tables s k)

    unfoldable pub update_view : Host → KeyMsg → Dash I Fl → Machine E T M → Step (Machine E T M)
    unfolding quit_view add_tests switch_focus move_selection open_add open_edit open_confirm
    update_view host msg d s =
        let is = bytes_eq (key_name msg) in
        if is (codes "q") || is (codes "ctrl+c")
        then quit_view d s
        else if is (codes "p")
        then (d, toggle_ping I Fl d, s)
        else if is (codes "t")
        then add_tests host d s
        else if is (codes "?") || is (codes "h")
        then (record d { mode = mode_help }, no_command, s)
        else if is (codes "tab")
        then (switch_focus I Fl d, no_command, s)
        else if is (codes "up") || is (codes "k")
        then (move_selection I Fl (negsuc 0) d, no_command, s)
        else if is (codes "down") || is (codes "j")
        then (move_selection I Fl (pos 1) d, no_command, s)
        else if is (codes "a")
        then (open_add I Fl d, no_command, s)
        else if is (codes "e") || is (codes "enter")
        then (open_edit I Fl host d, no_command, s)
        else if is (codes "d") || is (codes "x")
        then (open_confirm I Fl d, no_command, s)
        else if is (codes "c")
        then (d, copy (plain_snapshot Fl I host d), s)
        else (d, no_command, s)

    -- "y"
    unfoldable pub confirm_delete : Dash I Fl → Machine E T M → Step (Machine E T M)
    confirm_delete d s =
        let (r, k) = delete_rule d.confirm_target d.confirm_key s.tables in
        let (d', c) = deleted I Fl d r in (d', c, with_tables s k)

    unfoldable pub update_confirm_delete : KeyMsg → Dash I Fl → Machine E T M → Step (Machine E T M)
    unfolding confirm_delete
    update_confirm_delete msg d s =
        let is = bytes_eq (key_name msg) in
        if is (codes "y") || is (codes "enter")
        then confirm_delete d s
        else if is (codes "n") || is (codes "esc")
        then (record d { mode = mode_view }, no_command, s)
        else (d, no_command, s)

    unfoldable pub update_dash_form :
        Host → KeyMsg → Form I → Dash I Fl → Machine E T M → Step (Machine E T M)
    unfolding update_form
    update_dash_form host msg f d s =
        let (next, k) = update_form I host.ifaces msg f s.tables in
        let (d', c) = after_form I Fl next d in (d', c, with_tables s k)

    -- `m.form` is read in the mode of the form only
    abbrev pub in_form :
        Host → KeyMsg → Option (Form I) → Dash I Fl → Machine E T M → Option (Step (Machine E T M))
    in_form host msg none d s = none
    in_form host msg (some f) d s = some (update_dash_form host msg f d s)

    abbrev pub on_key :
        Mode → Host → KeyMsg → Dash I Fl → Machine E T M → Option (Step (Machine E T M))
    on_key mode_form host msg d s = in_form host msg d.form d s
    on_key mode_confirm_delete host msg d s = some (update_confirm_delete msg d s)
    on_key mode_help host msg d s = some (record d { mode = mode_view }, no_command, s)
    on_key mode_view host msg d s = some (update_view host msg d s)

    unfoldable pub update : Host → Msg I → Dash I Fl → Machine E T M → Option (Step (Machine E T M))
    unfolding on_ping on_copy on_snapshot update_view update_confirm_delete update_dash_form
    update host (window_size width) d s = some (record d { width = width }, no_command, s)
    update host (key_msg msg) d s = on_key d.mode host msg d s
    update host (ping_toggled on e) d s = some (on_ping I Fl host on e d, no_command, s)
    update host (copy_result path e) d s = some (on_copy I Fl host path e d, no_command, s)
    update host tick_msg d s = some (d, batch fetch (tick_after d.interval), s)
    update host (data_msg r) d s = some (on_data I Fl r d, no_command, s)
    update host other_msg d s = some (d, no_command, s)
