-- ===== src/Tui/Dashboard/Invariant/Messages.antt =====
-- `Update` of dashboard.go and the invariant, message by message.
use ebpf_packet_router.Prelude.{
  ℕ, ◌≡◌, refl, Bool, ◌||◌, List, Option, none, some, ok, err, pos, negsuc, if_both, if◌then◌else◌,
}
use ebpf_packet_router.Std.Text.{codes, bytes_eq}
use ebpf_packet_router.Std.Float64.{Float64}
use ebpf_packet_router.Maps.Types.{FwdRule}
use ebpf_packet_router.Maps.Tables.Interface.{EbpfMap}
use ebpf_packet_router.Stats.{PerCpuStat}
use ebpf_packet_router.Tui.TextInput.{TextInput}
use ebpf_packet_router.Tui.Form.{Form}
use ebpf_packet_router.Tui.Form.Update.{update_form}
use ebpf_packet_router.Tui.Form.Places.{update_form-IsInPlace}
use ebpf_packet_router.Tui.Dashboard.State.{
  Host, Machine, Mode, mode_view, mode_form, mode_confirm_delete, mode_help, Dash, Msg, window_size,
  key_msg, ping_toggled, copy_result, tick_msg, data_msg, other_msg,
}
use ebpf_packet_router.Tui.Dashboard.Defaults.{add_default_rules}
use ebpf_packet_router.Tui.Dashboard.Changes.{on_ping, on_copy}
use ebpf_packet_router.Tui.Dashboard.Update.{
  Step, quit_view, add_tests, update_view, confirm_delete, update_confirm_delete, delete_rule,
  update_dash_form, in_form, on_key, update,
}
use ebpf_packet_router.Tui.Dashboard.Invariant.{IsSound, IsFetched, Leaves}
use ebpf_packet_router.Tui.Dashboard.Invariant.Edits.{
  same_panels, on_snapshot-IsSound, switch_focus-IsSound, move_selection-IsSound, open_add-IsSound,
  open_edit-IsSound, open_confirm-IsSound, with_err-IsSound, defaults_added-IsSound,
  deleted-IsSound, after_form-IsSound,
}

module _ (I : TextInput) (Fl : Float64) where
  module _ (d : Dash I Fl) (h : IsSound I Fl d) where
    module _ {E : EbpfMap FwdRule} {T : EbpfMap ℕ} {M : EbpfMap (List PerCpuStat)} (host : Host)
        (msg : I.KeyMsg) (s : Machine E T M) where
      add_tests-IsSound : IsSound I Fl (add_tests I Fl host d s).0
      unfolding add_tests
      add_tests-IsSound = defaults_added-IsSound I Fl d h host (add_default_rules s.tables).0

      kept_if :
          (b : Bool) (x y : Step I Fl (Machine E T M))
          → IsSound I Fl x.0
          → IsSound I Fl y.0
          → IsSound I Fl (if b then x else y).0
      kept_if = if_both (λ x. IsSound I Fl x.0)

      update_view-IsSound : IsSound I Fl (update_view I Fl host msg d s).0
      unfolding update_view
      update_view-IsSound =
          let is = bytes_eq (I.key_name msg) in
          kept_if (is (codes "q") || is (codes "ctrl+c")) _ _ (unfold quit_view in h) (
            kept_if (is (codes "p")) _ _ h (
              kept_if (is (codes "t")) _ _ (add_tests-IsSound) (
                kept_if (is (codes "?") || is (codes "h")) _ _
                  (same_panels I Fl d mode_help (λ e. cc) h)
                  (kept_if (is (codes "tab")) _ _ (switch_focus-IsSound I Fl d h) (
                    kept_if (is (codes "up") || is (codes "k")) _ _
                      (move_selection-IsSound I Fl d h (negsuc 0))
                      (kept_if (is (codes "down") || is (codes "j")) _ _
                        (move_selection-IsSound I Fl d h (pos 1))
                        (kept_if (is (codes "a")) _ _ (open_add-IsSound I Fl d h) (
                          kept_if (is (codes "e") || is (codes "enter")) _ _
                            (open_edit-IsSound I Fl d h host)
                            (kept_if (is (codes "d") || is (codes "x")) _ _
                              (open_confirm-IsSound I Fl d h)
                              (kept_if (is (codes "c")) _ _ h h))))))))))

      update_confirm_delete-IsSound : IsSound I Fl (update_confirm_delete I Fl msg d s).0
      unfolding update_confirm_delete
      update_confirm_delete-IsSound =
          let is = bytes_eq (I.key_name msg) in
          kept_if (is (codes "y") || is (codes "enter")) _ _
            (unfold confirm_delete in
              deleted-IsSound I Fl d h (delete_rule d.confirm_target d.confirm_key s.tables).0)
            (kept_if (is (codes "n") || is (codes "esc")) _ _
              (same_panels I Fl d mode_view (λ e. cc) h) h)

      update_dash_form-IsSound :
          (f : Form I)
          → d.mode ≡ mode_form
          → d.form ≡ some f
          → IsSound I Fl (update_dash_form I Fl host msg f d s).0
      unfolding update_dash_form
      update_dash_form-IsSound f opened e =
          after_form-IsSound I Fl d h (update_form I host.ifaces msg f s.tables).0 opened
            (update_form-IsInPlace I host.ifaces f s.tables msg (h.form_in_place f e))

      in_form-IsSound :
          (form : Option (Form I))
          → d.mode ≡ mode_form
          → d.form ≡ form
          → Leaves I Fl (IsSound I Fl) (in_form I Fl host msg form d s)
      in_form-IsSound none opened e = absurd (h.form_open opened e)
      in_form-IsSound (some f) opened e = update_dash_form-IsSound f opened e

      on_key-IsSound :
          (mode : Mode) → d.mode ≡ mode → Leaves I Fl (IsSound I Fl) (on_key I Fl mode host msg d s)
      on_key-IsSound mode_form e = in_form-IsSound d.form e refl
      on_key-IsSound mode_confirm_delete e = update_confirm_delete-IsSound
      on_key-IsSound mode_help e = same_panels I Fl d mode_view (λ e. cc) h
      on_key-IsSound mode_view e = update_view-IsSound

  module _ {E : EbpfMap FwdRule} {T : EbpfMap ℕ} {M : EbpfMap (List PerCpuStat)} where
    pub update-IsSound :
        (host : Host) (msg : Msg I) (d : Dash I Fl) (s : Machine E T M)
        → IsFetched I Fl msg
        → IsSound I Fl d
        → Leaves I Fl (IsSound I Fl) (update I Fl host msg d s)
    unfolding update
    update-IsSound host (window_size width) d s fetched h = record {
      teid = h.teid;
      ueip = h.ueip;
      form_open = h.form_open;
      form_in_place = h.form_in_place;
    }
    update-IsSound host (key_msg msg) d s fetched h = on_key-IsSound d h host msg s d.mode refl
    update-IsSound host (ping_toggled on e) d s fetched h =
        unfold on_ping in
        record {
          teid = h.teid;
          ueip = h.ueip;
          form_open = h.form_open;
          form_in_place = h.form_in_place;
        }
    update-IsSound host (copy_result path e) d s fetched h =
        unfold on_copy in
        record {
          teid = h.teid;
          ueip = h.ueip;
          form_open = h.form_open;
          form_in_place = h.form_in_place;
        }
    update-IsSound host tick_msg d s fetched h = h
    update-IsSound host (data_msg (ok m)) d s fetched h =
        on_snapshot-IsSound I Fl m d fetched.0 fetched.1 h
    update-IsSound host (data_msg (err e)) d s fetched h = with_err-IsSound I Fl d h (some e)
    update-IsSound host other_msg d s fetched h = h
