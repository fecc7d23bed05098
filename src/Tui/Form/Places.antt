-- ===== src/Tui/Form/Places.antt =====
-- The focus and the picker of the form stay within their bounds.
use ebpf_packet_router.Prelude.{
  ℕ, zero, suc, ◌+◌, ◌-◌, ◌%◌, ◌<◌, ◌≡◌, refl, ap, Bool, true, false, ◌&&◌, List, [], ◌∷◌, arith,
  length, ◌==◌, Bool-cases, inl, inr, Result, ok, err, if◌then◌else◌,
}
use ebpf_packet_router.Std.Text.{codes, bytes_eq}
use ebpf_packet_router.Errors.{Error}
use ebpf_packet_router.Maps.Types.{FwdRule}
use ebpf_packet_router.Maps.Tables.Interface.{EbpfMap}
use ebpf_packet_router.Cmd.Exec.{Kernel}
use ebpf_packet_router.Cmd.Flags.{Interfaces}
use ebpf_packet_router.Tui.TextInput.{TextInput}
use ebpf_packet_router.Tui.Form.{
  Form, Field, Focus, key_focus, action_focus, field_focus, total, kind_at, give_focus, blur_all,
  focus_at, sync_focus,
}
use ebpf_packet_router.Tui.Form.Texts.{action_options}
use ebpf_packet_router.Tui.Form.Build.{build_rule}
use ebpf_packet_router.Tui.Form.Update.{
  Next, stays, cancelled, saved, focus_next, focus_previous, action_next, action_previous,
  update_at, update_input, forward, next_of, write_rule, submit, update_form,
}

module _ (I : TextInput) where
  pub record IsInPlace (f : Form I) : Type 0 where
    pub focus : f.focus_idx < total I f
    pub action : f.action_idx < length action_options

  -- what a focus index refers to is there
  abbrev pub IsPlace : Form I → Focus → Type 0
  IsPlace f key_focus = f.editing ≡ false
  IsPlace f action_focus = Unit
  IsPlace f (field_focus i) = i < length f.fields

  kind_at-IsPlace_from : (f : Form I) (idx : ℕ) → idx < total I f → IsPlace f (kind_at I f idx)
  unfolding total kind_at
  kind_at-IsPlace_from f idx h = elim (Bool-cases f.editing) [
    | inl e ↦
        let h' : idx < 1 + length f.fields = rw e at h in
        elim (Bool-cases (idx == 0)) [ inl z ↦ rw (e, z) tt | inr z ↦ rw (e, z) (ground arith) ]
    | inr e ↦
        let h' : idx < 2 + length f.fields = rw e at h in
        elim (Bool-cases (idx == 0)) [
          | inl z ↦ rw (e, z) refl
          | inr z ↦ elim (Bool-cases (idx == 1)) [
            | inl o ↦ rw (e, z, o) tt
            | inr o ↦ rw (e, z, o) (ground arith)
          ]
        ]
  ]

  length-blur_all : (fs : List (Field I)) → length (blur_all I fs) ≡ length fs
  length-blur_all [] = refl
  length-blur_all (f ∷ fs) = ap suc (length-blur_all fs)

  length-focus_at : (i : ℕ) (fs : List (Field I)) → length (focus_at I i fs) ≡ length fs
  length-focus_at i [] = refl
  length-focus_at zero (f ∷ fs) = refl
  length-focus_at (suc i) (f ∷ fs) = ap suc (length-focus_at i fs)

  length-update_at :
      (msg : I.KeyMsg) (i : ℕ) (fs : List (Field I)) → length (update_at I msg i fs) ≡ length fs
  length-update_at msg i [] = refl
  length-update_at msg zero (f ∷ fs) = refl
  length-update_at msg (suc i) (f ∷ fs) = ap suc (length-update_at msg i fs)

  give_focus-IsInPlace : (k : Focus) (f : Form I) → IsInPlace f → IsInPlace (give_focus I k f)
  unfolding total
  give_focus-IsInPlace key_focus f h = record { focus = h.focus; action = h.action }
  give_focus-IsInPlace action_focus f h = h
  give_focus-IsInPlace (field_focus i) f h = record {
    focus = rw (length-focus_at i f.fields) h.focus;
    action = h.action;
  }

  pub sync_focus-IsInPlace : (f : Form I) → IsInPlace f → IsInPlace (sync_focus I f)
  unfolding sync_focus
  sync_focus-IsInPlace f h = give_focus-IsInPlace (kind_at I f f.focus_idx) _ (record {
    focus = unfold total in rw (length-blur_all f.fields) (unfold total in h.focus);
    action = h.action;
  })

  update_input-IsInPlace :
      (msg : I.KeyMsg) (k : Focus) (f : Form I) → IsInPlace f → IsInPlace (update_input I msg k f)
  unfolding total
  update_input-IsInPlace msg key_focus f h = record { focus = h.focus; action = h.action }
  update_input-IsInPlace msg action_focus f h = h
  update_input-IsInPlace msg (field_focus i) f h = record {
    focus = rw (length-update_at msg i f.fields) h.focus;
    action = h.action;
  }

  -- P holds of the form that stays, if it does
  abbrev pub Stays : (Form I → Type 0) → Next I → Type 0
  Stays P (stays f) = P f
  Stays P cancelled = Unit
  Stays P saved = Unit

  Stays-if :
      {K : Type 0} (P : Form I → Type 0) (b : Bool) (x y : Next I × K)
      → Stays P x.0
      → Stays P y.0
      → Stays P (if b then x else y).0
  Stays-if P true x y hx hy = hx
  Stays-if P false x y hx hy = hy

  focus_next-IsInPlace : (f : Form I) → IsInPlace f → IsInPlace (focus_next I f)
  unfolding focus_next
  focus_next-IsInPlace f h =
      sync_focus-IsInPlace (record f { focus_idx = (f.focus_idx + 1) % total I f })
        (record { focus = unfold total in omega arith; action = h.action })

  focus_previous-IsInPlace : (f : Form I) → IsInPlace f → IsInPlace (focus_previous I f)
  unfolding focus_previous
  focus_previous-IsInPlace f h =
      sync_focus-IsInPlace (record f { focus_idx = (f.focus_idx + total I f - 1) % total I f })
        (record { focus = unfold total in omega arith; action = h.action })

  action_next-IsInPlace : (f : Form I) → IsInPlace f → IsInPlace (action_next I f)
  unfolding action_next total
  action_next-IsInPlace f h = record { focus = h.focus; action = omega arith }

  action_previous-IsInPlace : (f : Form I) → IsInPlace f → IsInPlace (action_previous I f)
  unfolding action_previous total
  action_previous-IsInPlace f h = record { focus = h.focus; action = omega arith }

  -- whether it fails to build or to be written, the form keeps its places
  next_of-IsInPlace :
      (f : Form I) (r : Result Error (Unit {0})) → IsInPlace f → Stays IsInPlace (next_of I f r)
  next_of-IsInPlace f (ok _) h = tt
  next_of-IsInPlace f (err e) h = record {
    focus = unfold total in (unfold total in h.focus);
    action = h.action;
  }

  module _ {E : EbpfMap FwdRule} {T : EbpfMap ℕ} (ifaces : Interfaces) (f : Form I)
      (s : Kernel E T) where
    write_rule-IsInPlace :
        (r : Result Error (ℕ × FwdRule)) → IsInPlace f → Stays IsInPlace (write_rule I f r s).0
    write_rule-IsInPlace (ok (key, rule)) h = next_of-IsInPlace f _ h
    write_rule-IsInPlace (err e) h = record {
      focus = unfold total in (unfold total in h.focus);
      action = h.action;
    }

    -- If the focus of the form is on one of its slots and its picker on one of the four actions,
    -- then so they are after any key after which the form stays.
    pub update_form-IsInPlace :
        (msg : I.KeyMsg) → IsInPlace f → Stays IsInPlace (update_form I ifaces msg f s).0
    unfolding update_form
    update_form-IsInPlace msg h =
        let is = bytes_eq (I.key_name msg) in
        Stays-if IsInPlace (is (codes "esc")) _ _ tt (
          Stays-if IsInPlace (is (codes "tab")) _ _ (focus_next-IsInPlace f h) (
            Stays-if IsInPlace (is (codes "shift+tab")) _ _ (focus_previous-IsInPlace f h) (
              Stays-if IsInPlace (is (codes "left") && _) _ _ (action_previous-IsInPlace f h) (
                Stays-if IsInPlace (is (codes "right") && _) _ _ (action_next-IsInPlace f h) (
                  Stays-if IsInPlace (is (codes "enter")) _ _
                    (unfold submit in write_rule-IsInPlace (build_rule I ifaces f) h)
                    (unfold forward in
                      update_input-IsInPlace msg (kind_at I f f.focus_idx) f h))))))

  -- If the focus of the form is on one of its slots, then what kindAt says of it is there: the key
  -- only when a rule is added, and a field with an index within the fields.
  pub kind_at-IsPlace : (f : Form I) → IsInPlace f → IsPlace f (kind_at I f f.focus_idx)
  kind_at-IsPlace f h = kind_at-IsPlace_from f f.focus_idx h.focus
