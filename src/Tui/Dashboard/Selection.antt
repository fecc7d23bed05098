-- ===== src/Tui/Dashboard/Selection.antt =====
-- moveSelection and selectedRule of dashboard.go: the focus on a panel and the row that is selected.
use ebpf_packet_router.Prelude.{
  ℕ, ◌-◌, List, Option, none, some, ◌==◌, length, get_elem?, ℤ, pos, negsuc, ◌+ℤ◌, ltb_ℤ,
  if◌then◌else◌,
}
use ebpf_packet_router.Std.Float64.{Float64}
use ebpf_packet_router.Maps.Types.{FwdRule}
use ebpf_packet_router.Maps.Tables.GoMap.{find}
use ebpf_packet_router.Tui.TextInput.{TextInput}
use ebpf_packet_router.Tui.Form.Texts.{Target, teid_target, ueip_target}
use ebpf_packet_router.Tui.Dashboard.State.{Dash, PanelFocus, focus_teid, focus_ueip}

unfoldable pub clamp : ℤ → ℤ → ℤ → ℤ
clamp v lo hi = if ltb_ℤ v lo then lo else if ltb_ℤ hi v then hi else v

abbrev pub target_of : PanelFocus → Target
target_of focus_teid = teid_target
target_of focus_ueip = ueip_target

abbrev pub other_panel : PanelFocus → PanelFocus
other_panel focus_teid = focus_ueip
other_panel focus_ueip = focus_teid

-- `clamp(selected+delta, 0, n-1)`, unless there is no row
unfoldable pub moved : ℤ → ℕ → ℤ → ℤ
unfolding clamp
moved delta n selected =
    if n == 0 then selected else clamp (selected +ℤ delta) (pos 0) (pos (n - 1))

abbrev pub row_with : List (ℕ × FwdRule) → Option ℕ → Option (ℕ × Option FwdRule)
row_with rules none = none
row_with rules (some k) = some (k, find k rules)

-- the key of the selected row with the rule of the last snapshot, if there is such a row
abbrev pub row_at : List ℕ → List (ℕ × FwdRule) → ℤ → Option (ℕ × Option FwdRule)
row_at ks rules (negsuc n) = none
row_at ks rules (pos i) = row_with rules (get_elem? ks i)

module _ (I : TextInput) (Fl : Float64) where
  -- "tab"
  unfoldable pub switch_focus : Dash I Fl → Dash I Fl
  switch_focus d = record d { focus = other_panel d.focus }

  -- `focusTarget`
  unfoldable pub focus_target : Dash I Fl → Target
  focus_target d = target_of d.focus

  unfoldable pub move_selection : ℤ → Dash I Fl → Dash I Fl
  unfolding moved
  move_selection delta d = elim d.focus [
    | focus_teid ↦ record d { teid_selected = moved delta (length d.teid_keys) d.teid_selected }
    | focus_ueip ↦ record d { ueip_selected = moved delta (length d.ueip_keys) d.ueip_selected }
  ]

  unfoldable pub selected_rule : Dash I Fl → Option (ℕ × Option FwdRule)
  selected_rule d = elim d.focus [
    | focus_teid ↦ row_at d.teid_keys d.last_teid d.teid_selected
    | focus_ueip ↦ row_at d.ueip_keys d.last_ueip d.ueip_selected
  ]
