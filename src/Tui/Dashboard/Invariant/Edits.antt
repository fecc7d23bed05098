-- ===== src/Tui/Dashboard/Invariant/Edits.antt =====
-- The invariant and the changes of the state in dashboard.go.
use ebpf_packet_router.Prelude.{
  ℕ, ◌≡◌, ◌≢◌, refl, Option, none, some, Result, ok, err, ℤ, ◌⊎◌, inl, inr,
}
use ebpf_packet_router.Std.Float64.{Float64}
use ebpf_packet_router.Errors.{Error}
use ebpf_packet_router.Maps.Types.{FwdRule}
use ebpf_packet_router.Maps.Tables.GoMap.{HasKeysOnce}
use ebpf_packet_router.Tui.TextInput.{TextInput}
use ebpf_packet_router.Tui.Form.{Form}
use ebpf_packet_router.Tui.Form.Update.{Next, stays, cancelled, saved}
use ebpf_packet_router.Tui.Form.Places.{IsInPlace, Stays}
use ebpf_packet_router.Tui.Form.Starting.{new_add_form-IsInPlace, new_edit_form-IsInPlace}
use ebpf_packet_router.Tui.Dashboard.State.{
  Host, Snapshot, Mode, mode_view, mode_form, PanelFocus, focus_teid, focus_ueip, Dash,
}
use ebpf_packet_router.Tui.Dashboard.Selection.{
  switch_focus, move_selection, focus_target, selected_rule,
}
use ebpf_packet_router.Tui.Dashboard.Changes.{
  on_snapshot, defaults_added, open_add, edit_row, open_edit, confirm_row, open_confirm, deleted,
  after_form,
}
use ebpf_packet_router.Tui.Dashboard.Invariant.{IsSound}
use ebpf_packet_router.Tui.Dashboard.Invariant.Panels.{moved-Within, build_rows-IsPanel}

PanelFocus-cases : (f : PanelFocus) → (f ≡ focus_teid) ⊎ (f ≡ focus_ueip)
PanelFocus-cases focus_teid = inl refl
PanelFocus-cases focus_ueip = inr refl

module _ (I : TextInput) (Fl : Float64) where
  -- a change of what the invariant does not speak of
  pub same_panels :
      (d : Dash I Fl) (mode : Mode)
      → mode ≢ mode_form
      → IsSound I Fl d
      → IsSound I Fl (record d { mode = mode })
  same_panels d mode other h = record {
    teid = h.teid;
    ueip = h.ueip;
    form_open = λ e. absurd (other e);
    form_in_place = h.form_in_place;
  }

  with_form :
      (d : Dash I Fl) (f : Form I)
      → IsInPlace I f
      → IsSound I Fl d
      → IsSound I Fl (record d { mode = mode_form; form = some f })
  with_form d f place h = record {
    teid = h.teid;
    ueip = h.ueip;
    form_open = λ _ e. cc;
    form_in_place = λ g e. let same : f ≡ g = cc in rw (← same) place;
  }

  pub on_snapshot-IsSound :
      (m : Snapshot) (d : Dash I Fl)
      → HasKeysOnce m.teid
      → HasKeysOnce m.ueip
      → IsSound I Fl d
      → IsSound I Fl (on_snapshot I Fl m d)
  unfolding on_snapshot
  on_snapshot-IsSound m d teid ueip h = record {
    teid = build_rows-IsPanel Fl _ d.last_teid m.teid _ d.have_data d.teid_selected teid;
    ueip = build_rows-IsPanel Fl _ d.last_ueip m.ueip _ d.have_data d.ueip_selected ueip;
    form_open = h.form_open;
    form_in_place = h.form_in_place;
  }

  module _ (d : Dash I Fl) (h : IsSound I Fl d) where
    pub switch_focus-IsSound : IsSound I Fl (switch_focus I Fl d)
    unfolding switch_focus
    switch_focus-IsSound = record {
      teid = h.teid;
      ueip = h.ueip;
      form_open = h.form_open;
      form_in_place = h.form_in_place;
    }

    pub move_selection-IsSound : (delta : ℤ) → IsSound I Fl (move_selection I Fl delta d)
    unfolding move_selection
    move_selection-IsSound delta = elim (PanelFocus-cases d.focus) [
      | inl e ↦ rw e (record {
        teid = record {
          ascending = h.teid.ascending;
          complete = h.teid.complete;
          shown = h.teid.shown;
          selection = moved-Within delta _ d.teid_selected h.teid.selection;
        };
        ueip = h.ueip;
        form_open = h.form_open;
        form_in_place = h.form_in_place;
      })
      | inr e ↦ rw e (record {
        teid = h.teid;
        ueip = record {
          ascending = h.ueip.ascending;
          complete = h.ueip.complete;
          shown = h.ueip.shown;
          selection = moved-Within delta _ d.ueip_selected h.ueip.selection;
        };
        form_open = h.form_open;
        form_in_place = h.form_in_place;
      })
    ]

    edit_row-IsSound :
        (host : Host) (row : Option (ℕ × Option FwdRule)) → IsSound I Fl (edit_row I Fl host row d)
    edit_row-IsSound host none = h
    edit_row-IsSound host (some (key, rule)) =
        with_form d _ (new_edit_form-IsInPlace I host.ifaces (focus_target I Fl d) key rule) h

    confirm_row-IsSound :
        (row : Option (ℕ × Option FwdRule)) → IsSound I Fl (confirm_row I Fl row d)
    confirm_row-IsSound none = h
    confirm_row-IsSound (some (key, rule)) = record {
      teid = h.teid;
      ueip = h.ueip;
      form_open = λ e. cc;
      form_in_place = h.form_in_place;
    }

    pub open_add-IsSound : IsSound I Fl (open_add I Fl d)
    unfolding open_add
    open_add-IsSound = with_form d _ (new_add_form-IsInPlace I (focus_target I Fl d)) h

    pub open_edit-IsSound : (host : Host) → IsSound I Fl (open_edit I Fl host d)
    unfolding open_edit
    open_edit-IsSound host = edit_row-IsSound host (selected_rule I Fl d)

    pub open_confirm-IsSound : IsSound I Fl (open_confirm I Fl d)
    unfolding open_confirm
    open_confirm-IsSound = confirm_row-IsSound (selected_rule I Fl d)

    pub with_err-IsSound : (e : Option Error) → IsSound I Fl (record d { err = e })
    with_err-IsSound e = record {
      teid = h.teid;
      ueip = h.ueip;
      form_open = h.form_open;
      form_in_place = h.form_in_place;
    }

    pub defaults_added-IsSound :
        (host : Host) (r : Result Error (Unit {0})) → IsSound I Fl (defaults_added I Fl host d r).0
    defaults_added-IsSound host (err e) = with_err-IsSound (some e)
    defaults_added-IsSound host (ok _) = record {
      teid = h.teid;
      ueip = h.ueip;
      form_open = h.form_open;
      form_in_place = h.form_in_place;
    }

    pub deleted-IsSound : (r : Result Error (Unit {0})) → IsSound I Fl (deleted I Fl d r).0
    deleted-IsSound (err e) = record {
      teid = h.teid;
      ueip = h.ueip;
      form_open = λ e. cc;
      form_in_place = h.form_in_place;
    }
    deleted-IsSound (ok _) = same_panels d mode_view (λ e. cc) h

    pub after_form-IsSound :
        (next : Next I)
        → d.mode ≡ mode_form
        → Stays I (IsInPlace I) next
        → IsSound I Fl (after_form I Fl next d).0
    after_form-IsSound (stays f) opened place = record {
      teid = h.teid;
      ueip = h.ueip;
      form_open = λ _ e. cc;
      form_in_place = λ g e. let same : f ≡ g = cc in rw (← same) place;
    }
    after_form-IsSound cancelled opened place = record {
      teid = h.teid;
      ueip = h.ueip;
      form_open = λ e. cc;
      form_in_place = λ g e. cc;
    }
    after_form-IsSound saved opened place = record {
      teid = h.teid;
      ueip = h.ueip;
      form_open = λ e. cc;
      form_in_place = λ g e. cc;
    }
