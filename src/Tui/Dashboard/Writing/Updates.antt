-- ===== src/Tui/Dashboard/Writing/Updates.antt =====
-- Which messages write to the tables, and what they write.
use ebpf_packet_router.Prelude.{
  ℕ, ◌≡◌, refl, Bool, ◌||◌, ◌&&◌, List, Option, none, some, Result, ok, err, if_both, if◌then◌else◌,
}
use ebpf_packet_router.Std.Text.{codes, bytes_eq}
use ebpf_packet_router.Std.Float64.{Float64}
use ebpf_packet_router.Errors.{Error}
use ebpf_packet_router.Maps.Types.{FwdRule}
use ebpf_packet_router.Maps.Validate.Laws.{IsComplete}
use ebpf_packet_router.Maps.Tables.Interface.{EbpfMap}
use ebpf_packet_router.Stats.{PerCpuStat}
use ebpf_packet_router.Cmd.Exec.{Kernel}
use ebpf_packet_router.Tui.TextInput.{TextInput}
use ebpf_packet_router.Tui.Form.{Form}
use ebpf_packet_router.Tui.Form.Build.{build_rule}
use ebpf_packet_router.Tui.Form.Update.{Next, stays, cancelled, saved, update_form}
use ebpf_packet_router.Tui.Form.Saving.{IsWritten, Outcome, update_form-Outcome}
use ebpf_packet_router.Tui.Dashboard.State.{
  Host, Machine, Mode, mode_view, mode_form, mode_confirm_delete, mode_help, Dash, Msg, window_size,
  key_msg, ping_toggled, copy_result, tick_msg, data_msg, other_msg,
}
use ebpf_packet_router.Tui.Dashboard.Update.{
  Step, quit_view, add_tests, update_view, confirm_delete, update_confirm_delete, update_dash_form,
  in_form, on_key, update,
}
use ebpf_packet_router.Tui.Dashboard.Writing.{
  IsRemoved, Removal, confirmed, delete_rule-Removal, DefaultsOutcome, add_default_rules-Outcome,
}

-- one of the keys
abbrev pub is_key : (I : TextInput) → I.KeyMsg → List ℕ → Bool
is_key I msg name = bytes_eq (I.key_name msg) name

module _ (I : TextInput) (Fl : Float64) {E : EbpfMap FwdRule} {T : EbpfMap ℕ} where
  -- what a message may do to the tables
  pub data Writes (host : Host) (d : Dash I Fl) (msg : Msg I) (k k' : Kernel E T) : Type 0 where
    unchanged : k' ≡ k → Writes host d msg k k'
    -- "y" or enter, in the confirmation of a deletion
    removed :
        d.mode ≡ mode_confirm_delete
        → (key : I.KeyMsg) → msg ≡ key_msg key
        → (is_key I key (codes "y") || is_key I key (codes "enter")) ≡ Bool.true
        → IsRemoved (confirmed d.confirm_target) k k' d.confirm_key
        → Writes host d msg k k'
    -- enter, in a form whose rule is built and complete
    written :
        d.mode ≡ mode_form
        → (press : I.KeyMsg) → msg ≡ key_msg press
        → is_key I press (codes "enter") ≡ Bool.true
        → (f : Form I) → d.form ≡ some f
        → (key : ℕ) (rule : FwdRule) → build_rule I host.ifaces f ≡ ok (key, rule)
        → IsComplete rule
        → IsWritten f.target k k' key rule
        → Writes host d msg k k'
    -- "t" in the view
    defaults :
        d.mode ≡ mode_view
        → (key : I.KeyMsg) → msg ≡ key_msg key
        → is_key I key (codes "t") ≡ Bool.true
        → (r : Result Error (Unit {0})) → DefaultsOutcome k r k'
        → Writes host d msg k k'

  module _ {M : EbpfMap (List PerCpuStat)} (host : Host) (d : Dash I Fl) (s : Machine E T M) where
    -- the step writes no more than that
    abbrev pub StepWrites : Msg I → Option (Step I Fl (Machine E T M)) → Type 0
    StepWrites msg none = Unit
    StepWrites msg (some x) = Writes host d msg s.tables x.2.tables

    -- a test that is known in its branches
    if_known :
        {A : Type 0} (P : A → Type 0) (b : Bool) (x y : A)
        → (b ≡ Bool.true → P x)
        → (b ≡ Bool.false → P y)
        → P (if b then x else y)
    if_known P Bool.true x y hx hy = hx refl
    if_known P Bool.false x y hx hy = hy refl

    module _ (msg : I.KeyMsg) where
      same : Writes host d (key_msg msg) s.tables s.tables
      same = unchanged refl

      quit_view-tables : (quit_view I Fl d s).2.tables ≡ s.tables
      unfolding quit_view
      quit_view-tables =
          if_both (λ (x : Machine E T M). x.tables ≡ s.tables) d.ping_on _ _ refl refl

      view_if :
          (b : Bool) (x y : Step I Fl (Machine E T M))
          → (b ≡ Bool.true → Writes host d (key_msg msg) s.tables x.2.tables)
          → Writes host d (key_msg msg) s.tables y.2.tables
          → Writes host d (key_msg msg) s.tables (if b then x else y).2.tables
      view_if b x y hx hy =
          if_known (λ z. Writes host d (key_msg msg) s.tables z.2.tables) b x y hx (λ _. hy)

      update_view-Writes :
          d.mode ≡ mode_view
          → Writes host d (key_msg msg) s.tables (update_view I Fl host msg d s).2.tables
      unfolding update_view add_tests
      update_view-Writes e =
          let is = bytes_eq (I.key_name msg) in
          view_if (is (codes "q") || is (codes "ctrl+c")) _ _ (λ _. unchanged quit_view-tables)
            (view_if (is (codes "p")) _ _ (λ _. same)
              (view_if (is (codes "t")) _ _
                (λ t. defaults e msg refl t _ (add_default_rules-Outcome s.tables).0)
                (view_if (is (codes "?") || is (codes "h")) _ _ (λ _. same)
                  (view_if (is (codes "tab")) _ _ (λ _. same)
                    (view_if (is (codes "up") || is (codes "k")) _ _ (λ _. same)
                      (view_if (is (codes "down") || is (codes "j")) _ _ (λ _. same)
                        (view_if (is (codes "a")) _ _ (λ _. same)
                          (view_if (is (codes "e") || is (codes "enter")) _ _ (λ _. same)
                            (view_if (is (codes "d") || is (codes "x")) _ _ (λ _. same)
                              (view_if (is (codes "c")) _ _ (λ _. same) same))))))))))

      removal :
          d.mode ≡ mode_confirm_delete
          → (is_key I msg (codes "y") || is_key I msg (codes "enter")) ≡ Bool.true
          → (r : Result Error (Unit {0})) (k : Kernel E T)
          → Removal (confirmed d.confirm_target) s.tables d.confirm_key r k
          → Writes host d (key_msg msg) s.tables k
      removal e pressed (ok _) k h = removed e msg refl pressed h
      removal e pressed (err x) k h = unchanged h

      update_confirm_delete-Writes :
          d.mode ≡ mode_confirm_delete
          → Writes host d (key_msg msg) s.tables (update_confirm_delete I Fl msg d s).2.tables
      unfolding update_confirm_delete confirm_delete
      update_confirm_delete-Writes e =
          let is = bytes_eq (I.key_name msg) in
          view_if (is (codes "y") || is (codes "enter")) _ _
            (λ pressed.
              removal e pressed _ _ (delete_rule-Removal d.confirm_target d.confirm_key s.tables))
            (view_if (is (codes "n") || is (codes "esc")) _ _ (λ _. same) same)

      form-Outcome :
          d.mode ≡ mode_form
          → (f : Form I) → d.form ≡ some f
          → (next : Next I) (k : Kernel E T)
          → (next ≡ saved → is_key I msg (codes "enter") ≡ Bool.true)
          → Outcome I host.ifaces f s.tables next k
          → Writes host d (key_msg msg) s.tables k
      form-Outcome opened f e (stays f') k pressed h = unchanged h
      form-Outcome opened f e cancelled k pressed h = unchanged h
      form-Outcome opened f e saved k pressed (key, rule, built, complete, w) =
          written opened msg refl (pressed refl) f e key rule built complete w

      -- no other key saves the form
      saved_by_enter :
          (f : Form I)
          → (update_form I host.ifaces msg f s.tables).0 ≡ saved
          → is_key I msg (codes "enter") ≡ Bool.true
      unfolding update_form
      saved_by_enter f =
          let is = bytes_eq (I.key_name msg) in
          let P : Next I × Kernel E T → Type 0 =
            λ x. x.0 ≡ saved → is (codes "enter") ≡ Bool.true in
          if_both P (is (codes "esc")) _ _ (λ e. cc)
            (if_both P (is (codes "tab")) _ _ (λ e. cc)
              (if_both P (is (codes "shift+tab")) _ _ (λ e. cc)
                (if_both P (is (codes "left") && _) _ _ (λ e. cc)
                  (if_both P (is (codes "right") && _) _ _ (λ e. cc)
                    (if_known P (is (codes "enter")) _ _ (λ pressed _. pressed) (λ _ e. cc))))))

      in_form-Writes :
          d.mode ≡ mode_form
          → (form : Option (Form I)) → d.form ≡ form
          → StepWrites (key_msg msg) (in_form I Fl host msg form d s)
      unfolding update_dash_form
      in_form-Writes opened none e = tt
      in_form-Writes opened (some f) e =
          form-Outcome opened f e _ _ (saved_by_enter f)
            (update_form-Outcome I host.ifaces f s.tables msg)

      on_key-Writes :
          (mode : Mode) → d.mode ≡ mode → StepWrites (key_msg msg) (on_key I Fl mode host msg d s)
      on_key-Writes mode_form e = in_form-Writes e d.form refl
      on_key-Writes mode_confirm_delete e = update_confirm_delete-Writes e
      on_key-Writes mode_help e = same
      on_key-Writes mode_view e = update_view-Writes e

    -- Whatever the message and the state of the dashboard: Update leaves the tables as they are, or
    -- deletes the key that the prompt asks about on "y" or enter, or writes the complete rule that
    -- the form builds to the form's table on enter in the form, or adds the test rules, or those
    -- before a failure, on "t" in the view.
    pub update-Writes : (msg : Msg I) → StepWrites msg (update I Fl host msg d s)
    unfolding update
    update-Writes (window_size width) = unchanged refl
    update-Writes (key_msg msg) = on_key-Writes msg d.mode refl
    update-Writes (ping_toggled on e) = unchanged refl
    update-Writes (copy_result path e) = unchanged refl
    update-Writes tick_msg = unchanged refl
    update-Writes (data_msg r) = unchanged refl
    update-Writes other_msg = unchanged refl
