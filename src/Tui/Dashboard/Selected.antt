-- ===== src/Tui/Dashboard/Selected.antt =====
-- selectedRule of dashboard.go in a sound state.
use mathlib.Core.List.{Mem, mem-cons_self, mem-cons_of_mem}
use mathlib.Core.Path.{subst}
use ebpf_packet_router.Prelude.{
  ℕ, zero, suc, ◌-◌, ◌≤◌, ◌≡◌, ◌≢◌, ◌↔◌, refl, sym, List, [], ◌∷◌, Option, none, some, ℤ, pos,
  negsuc, length, get_elem?, arith,
}
use ebpf_packet_router.Std.Float64.{Float64}
use ebpf_packet_router.Maps.Types.{FwdRule}
use ebpf_packet_router.Maps.Tables.GoMap.{find}
use ebpf_packet_router.Tui.TextInput.{TextInput}
use ebpf_packet_router.Tui.Dashboard.State.{focus_teid, focus_ueip, Dash}
use ebpf_packet_router.Tui.Dashboard.Selection.{row_with, row_at, selected_rule}
use ebpf_packet_router.Tui.Dashboard.Invariant.{Within, IsSound}

-- an index within a list that is not empty has an element
element_at :
    (k : ℕ) (ks : List ℕ) (i : ℕ)
    → i ≤ length (k ∷ ks) - 1
    → (j : ℕ) × (get_elem? (k ∷ ks) i ≡ some j) × Mem j (k ∷ ks)
element_at k ks zero h = (k, refl, mem-cons_self)
element_at k [] (suc i) h = absurd (omega arith)
element_at k (j ∷ ks) (suc i) h =
    let (x, e, m) = element_at j ks i (omega arith) in (x, e, mem-cons_of_mem k m)

-- nothing is selected, since there is no row, or a key of a row with the rule that the last snapshot
-- holds at it
abbrev pub Selected : List ℕ → List (ℕ × FwdRule) → Option (ℕ × Option FwdRule) → Type 0
Selected ks rules none = ks ≡ []
Selected ks rules (some (k, rule)) = Mem k ks × (find k rules ≡ rule) × (rule ≢ none)

row_at-Selected :
    (ks : List ℕ) (rules : List (ℕ × FwdRule)) (selected : ℤ)
    → ((k : ℕ) → Mem k ks ↔ (find k rules ≢ none))
    → Within (length ks - 1) selected
    → Selected ks rules (row_at ks rules selected)
row_at-Selected ks rules (negsuc n) complete h = elim h [ ]
row_at-Selected [] rules (pos i) complete h = refl
row_at-Selected (k ∷ ks) rules (pos i) complete h =
    let (j, e, m) = element_at k ks i h in
    subst (λ o. Selected (k ∷ ks) rules (row_with rules o)) (sym e) (m, refl, (complete j).0 m)

module _ (I : TextInput) (Fl : Float64) where
  -- the keys and the rules of the panel that has the focus
  abbrev pub focused_keys : Dash I Fl → List ℕ
  focused_keys d = elim d.focus [ focus_teid ↦ d.teid_keys | focus_ueip ↦ d.ueip_keys ]

  abbrev pub focused_rules : Dash I Fl → List (ℕ × FwdRule)
  focused_rules d = elim d.focus [ focus_teid ↦ d.last_teid | focus_ueip ↦ d.last_ueip ]

  pub selected_rule-Selected :
      (d : Dash I Fl)
      → IsSound I Fl d
      → Selected (focused_keys d) (focused_rules d) (selected_rule I Fl d)
  unfolding selected_rule
  selected_rule-Selected d h =
      elim d.focus
        as (λ f.
          Selected (elim f [ focus_teid ↦ d.teid_keys | focus_ueip ↦ d.ueip_keys ])
            (elim f [ focus_teid ↦ d.last_teid | focus_ueip ↦ d.last_ueip ])
            (elim f [
              | focus_teid ↦ row_at d.teid_keys d.last_teid d.teid_selected
              | focus_ueip ↦ row_at d.ueip_keys d.last_ueip d.ueip_selected
            ])) [
              | focus_teid ↦
                  row_at-Selected d.teid_keys d.last_teid _ h.teid.complete h.teid.selection
              | focus_ueip ↦
                  row_at-Selected d.ueip_keys d.last_ueip _ h.ueip.complete h.ueip.selection
            ]
