-- ===== src/Examples/Sessions.antt =====
-- A session of the dashboard that fetches the tables of Data, deletes a rule and adds the test rules.
use ebpf_packet_router.Prelude.{ℕ, ◌≡◌, refl, List, [], some, ok, pos}
use ebpf_packet_router.Std.Text.{Bytes, codes}
use ebpf_packet_router.Std.Sort.{sort_keys}
use ebpf_packet_router.Maps.Tables.GoMap.{find, keys}
use ebpf_packet_router.Stats.{zero_stat}
use ebpf_packet_router.Tui.Dashboard.State.{Snapshot, no_command, Dash, key_msg, data_msg}
use ebpf_packet_router.Tui.Dashboard.Selection.{target_of, selected_rule}
use ebpf_packet_router.Tui.Dashboard.Changes.{on_snapshot, open_confirm}
use ebpf_packet_router.Tui.Dashboard.Update.{update}
use ebpf_packet_router.Tui.Dashboard.View.{view}
use ebpf_packet_router.Tui.Dashboard.Run.{configured}
use ebpf_packet_router.Tui.Dashboard.Invariant.{IsSound, Leaves, begin, receive}
use ebpf_packet_router.Tui.Dashboard.Invariant.Sessions.{session-IsSound}
use ebpf_packet_router.Tui.Dashboard.Writing.Updates.{StepWrites, update-Writes}
use ebpf_packet_router.Tui.Dashboard.Deleting.{Waits, Deletes, delete_selected}
use ebpf_packet_router.Examples.Inputs.{text_inputs}
use ebpf_packet_router.Examples.Floats.{whole_floats, plain_styles}
use ebpf_packet_router.Examples.Data.{tunnel_rule}
use ebpf_packet_router.Examples.Dashboards.{
  host, machine, teid_rules, ueip_rules, teid_rules-HasKeysOnce, ueip_rules-HasKeysOnce,
}

abbrev no_env : Bytes → Bytes
no_env name = []

abbrev snapshot : Snapshot
snapshot = record {
  teid = teid_rules;
  ueip = ueip_rules;
  counters = record { pass = zero_stat; drop = zero_stat; redirect = zero_stat };
  fetched_at = 5000000000;
}

abbrev started_dash : Dash text_inputs whole_floats
started_dash = configured text_inputs whole_floats no_env (pos 1000000000)

abbrev fetched_dash : Dash text_inputs whole_floats
fetched_dash = on_snapshot text_inputs whole_floats snapshot started_dash

fetched :
    update text_inputs whole_floats host (data_msg (ok snapshot)) started_dash machine
    ≡ some (fetched_dash, no_command, machine)
unfolding update
fetched = refl

session-IsSound_example :
    IsSound text_inputs whole_floats fetched_dash
    × Leaves text_inputs whole_floats
        (IsSound text_inputs whole_floats)
        (update text_inputs whole_floats host (key_msg (codes "down")) fetched_dash machine)
    × ((page : List ℕ) × (view plain_styles text_inputs whole_floats host fetched_dash ≡ some page))
session-IsSound_example =
    session-IsSound text_inputs whole_floats no_env (pos 1000000000) fetched_dash machine host
      (key_msg (codes "down")) plain_styles
      (receive host (data_msg (ok snapshot)) fetched_dash no_command machine (begin machine)
        (teid_rules-HasKeysOnce, ueip_rules-HasKeysOnce) fetched)
      tt

first_selected : selected_rule text_inputs whole_floats fetched_dash ≡ some (7, some tunnel_rule)
unfolding selected_rule on_snapshot configured sort_keys keys find
first_selected = refl

delete_selected_example :
    (update text_inputs whole_floats host (key_msg (codes "d")) fetched_dash machine
      ≡ some (open_confirm text_inputs whole_floats fetched_dash, no_command, machine))
    × Deletes text_inputs whole_floats (target_of fetched_dash.focus) 7 machine.tables (
        update text_inputs whole_floats host
          (key_msg (codes "y"))
          (open_confirm text_inputs whole_floats fetched_dash)
          machine)
unfolding on_snapshot configured
delete_selected_example =
    delete_selected text_inputs whole_floats host fetched_dash machine (codes "d") (codes "y") 7
      (some tunnel_rule) host (open_confirm text_inputs whole_floats fetched_dash) machine refl refl
      refl first_selected Waits.now

update-Writes_example :
    StepWrites text_inputs whole_floats host fetched_dash machine
      (key_msg (codes "t"))
      (update text_inputs whole_floats host (key_msg (codes "t")) fetched_dash machine)
update-Writes_example =
    update-Writes text_inputs whole_floats host fetched_dash machine (key_msg (codes "t"))
