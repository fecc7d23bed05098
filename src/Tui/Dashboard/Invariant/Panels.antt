-- ===== src/Tui/Dashboard/Invariant/Panels.antt =====
-- The panels and their selections.
use mathlib.Core.List.{Mem, mem-cons_self, mem-cons_of_mem}
use ebpf_packet_router.Prelude.{
  ℕ, ◌-◌, ◌≢◌, refl, Bool, List, [], ◌∷◌, none, Option-cases, inl, inr, ℤ, pos, negsuc, ◌+ℤ◌, ltb_ℤ,
  length, All, arith, Bool-cases, if_both, ◌==◌,
}
use ebpf_packet_router.Std.Text.{Bytes}
use ebpf_packet_router.Std.Float64.{Float64}
use ebpf_packet_router.Maps.Types.{FwdRule}
use ebpf_packet_router.Maps.Tables.GoMap.{find, HasKeysOnce}
use ebpf_packet_router.Cmd.Listing.Rows.{rows_of}
use ebpf_packet_router.Tui.Dashboard.Selection.{clamp, moved}
use ebpf_packet_router.Tui.Dashboard.Rows.{rule_row, build_rows}
use ebpf_packet_router.Tui.Dashboard.Rows.Policed.{build_rows-IsListed}
use ebpf_packet_router.Tui.Dashboard.Invariant.{Shows, Within, IsPanel}

clamp-Within : (v : ℤ) (hi : ℕ) → Within hi (clamp v (pos 0) (pos hi))
unfolding clamp
clamp-Within (pos n) hi = elim (Bool-cases (ltb_ℤ (pos n) (pos 0))) [
  | inl e ↦ rw e (omega arith)
  | inr e ↦ elim (Bool-cases (ltb_ℤ (pos hi) (pos n))) [
    | inl e' ↦ rw (e, e') (omega arith)
    | inr e' ↦ rw (e, e') (ground arith)
  ]
]
clamp-Within (negsuc n) hi = elim (Bool-cases (ltb_ℤ (negsuc n) (pos 0))) [
  | inl e ↦ rw e (omega arith)
  | inr e ↦ absurd (ground arith)
]

pub moved-Within :
    (delta : ℤ) (n : ℕ) (selected : ℤ)
    → Within (n - 1) selected
    → Within (n - 1) (moved delta n selected)
unfolding moved
moved-Within delta n selected h =
    if_both (Within (n - 1)) (n == 0) _ _ h (clamp-Within (selected +ℤ delta) (n - 1))

element_holds : (P : ℕ → Type 0) (ks : List ℕ) → ((k : ℕ) → Mem k ks → P k) → All P ks
element_holds P [] h = tt
element_holds P (k ∷ ks) h =
    (h k mem-cons_self, element_holds P ks (λ j m. h j (mem-cons_of_mem k m)))

module _ (Fl : Float64) (key_fmt : ℕ → Bytes) (prev rules : List (ℕ × FwdRule)) (elapsed : Fl.F)
    (have_prev : Bool) where
  rows_of-Shows :
      (ks : List ℕ)
      → All (λ k. find k rules ≢ none) ks
      → Shows key_fmt ks
          (rows_of (rule_row Fl key_fmt prev elapsed have_prev) (λ k. find k rules) ks)
  unfolding rule_row
  rows_of-Shows [] h = tt
  rows_of-Shows (k ∷ ks) (h, hs) = elim (Option-cases (find k rules)) [
    | inl e ↦ absurd (h e)
    | inr (r, e) ↦ rw e (refl, rows_of-Shows ks hs)
  ]

  -- a panel after a snapshot
  pub build_rows-IsPanel :
      (selected : ℤ)
      → HasKeysOnce rules
      → IsPanel key_fmt rules
          (build_rows Fl rules prev elapsed have_prev key_fmt).0
          (build_rows Fl rules prev elapsed have_prev key_fmt).1
          (clamp selected
            (pos 0)
            (pos (length (build_rows Fl rules prev elapsed have_prev key_fmt).0 - 1)))
  build_rows-IsPanel selected once =
      let listed = build_rows-IsListed Fl rules prev elapsed have_prev key_fmt once in
      let held = element_holds (λ k. find k rules ≢ none) _ (λ k m. (listed.complete k).0 m) in
      record {
        ascending = listed.ascending;
        complete = listed.complete;
        shown = rw (listed.rows_are) (rows_of-Shows _ held);
        selection = clamp-Within selected _;
      }
