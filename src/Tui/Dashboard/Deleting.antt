-- ===== src/Tui/Dashboard/Deleting.antt =====
-- The deletion of a selected row in dashboard.go.
use mathlib.Core.Path.{subst}
use ebpf_packet_router.Prelude.{
  ℕ, ◌≡◌, refl, sym, ap, ◌∙◌, Bool, true, false, List, Option, none, some, Result, ok, err,
}
use ebpf_packet_router.Std.Text.{codes}
use ebpf_packet_router.Std.Float64.{Float64}
use ebpf_packet_router.Errors.{Error}
use ebpf_packet_router.Maps.Types.{FwdRule}
use ebpf_packet_router.Maps.Tables.Interface.{EbpfMap}
use ebpf_packet_router.Stats.{PerCpuStat}
use ebpf_packet_router.Cmd.Exec.{Kernel}
use ebpf_packet_router.Tui.TextInput.{TextInput}
use ebpf_packet_router.Tui.Form.Texts.{Target}
use ebpf_packet_router.Tui.Dashboard.State.{
  Host, Machine, mode_view, mode_confirm_delete, Command, no_command, fetch, Dash, Msg, window_size,
  key_msg, ping_toggled, copy_result, tick_msg, data_msg, other_msg,
}
use ebpf_packet_router.Tui.Dashboard.Selection.{target_of, focus_target, selected_rule}
use ebpf_packet_router.Tui.Dashboard.Changes.{
  on_ping, on_copy, on_snapshot, confirm_row, open_confirm, deleted,
}
use ebpf_packet_router.Tui.Dashboard.Update.{
  Step, update_view, confirm_delete, update_confirm_delete, on_key, update,
}
use ebpf_packet_router.Tui.Dashboard.Invariant.{Leaves}
use ebpf_packet_router.Tui.Dashboard.Invariant.Sessions.{left_state}
use ebpf_packet_router.Tui.Dashboard.Writing.{confirmed, Removal, delete_rule-Removal}

module _ (I : TextInput) (Fl : Float64) where
  -- what the prompt asks about
  pub record SamePrompt (d d' : Dash I Fl) : Type 0 where
    pub mode : d'.mode ≡ d.mode
    pub target : d'.confirm_target ≡ d.confirm_target
    pub key : d'.confirm_key ≡ d.confirm_key

  same_prompt : (d : Dash I Fl) → SamePrompt d d
  same_prompt d = record { mode = refl; target = refl; key = refl }

  abbrev pub is_key_msg : Msg I → Bool
  is_key_msg (key_msg msg) = true
  is_key_msg (window_size width) = false
  is_key_msg (ping_toggled on e) = false
  is_key_msg (copy_result path e) = false
  is_key_msg tick_msg = false
  is_key_msg (data_msg r) = false
  is_key_msg other_msg = false

  -- a success fetches the tables again, a failure is shown
  abbrev pub Reported : Result Error (Unit {0}) → Dash I Fl → Command → Type 0
  Reported (ok _) d c = c ≡ fetch
  Reported (err e) d c = d.err ≡ some e

  -- messages other than keys, between which the tables may change
  pub data Waits (E : EbpfMap FwdRule) (T : EbpfMap ℕ) (M : EbpfMap (List PerCpuStat))
      (start : Dash I Fl) : Dash I Fl → Type 0 where
    now : Waits E T M start start
    receive :
        {d : Dash I Fl} (host : Host) (msg : Msg I) (s : Machine E T M) (d' : Dash I Fl)
        (c : Command) (s' : Machine E T M)
        → Waits E T M start d
        → is_key_msg msg ≡ false
        → update I Fl host msg d s ≡ some (d', c, s')
        → Waits E T M start d'

  open_confirm-some :
      (d : Dash I Fl) (key : ℕ) (rule : Option FwdRule)
      → selected_rule I Fl d ≡ some (key, rule)
      → open_confirm I Fl d ≡ confirm_row I Fl (some (key, rule)) d
  unfolding open_confirm
  open_confirm-some d key rule e = ap (λ row. confirm_row I Fl row d) e

  module _ {E : EbpfMap FwdRule} {T : EbpfMap ℕ} {M : EbpfMap (List PerCpuStat)} where
    prompt_waits :
        (host : Host) (msg : Msg I) (d : Dash I Fl) (s : Machine E T M)
        → is_key_msg msg ≡ false
        → Leaves I Fl (SamePrompt d) (update I Fl host msg d s)
    unfolding update
    prompt_waits host (key_msg msg) d s e = cc
    prompt_waits host (window_size width) d s e = record { mode = refl; target = refl; key = refl }
    prompt_waits host (ping_toggled on x) d s e =
        unfold on_ping in record { mode = refl; target = refl; key = refl }
    prompt_waits host (copy_result path x) d s e =
        unfold on_copy in record { mode = refl; target = refl; key = refl }
    prompt_waits host tick_msg d s e = same_prompt d
    prompt_waits host (data_msg (ok m)) d s e =
        unfold on_snapshot in record { mode = refl; target = refl; key = refl }
    prompt_waits host (data_msg (err x)) d s e = record { mode = refl; target = refl; key = refl }
    prompt_waits host other_msg d s e = same_prompt d

    Waits-SamePrompt : {start d : Dash I Fl} → Waits E T M start d → SamePrompt start d
    Waits-SamePrompt now = record { mode = refl; target = refl; key = refl }
    Waits-SamePrompt (receive {d} host msg s d' c s' w e u) =
        let before = Waits-SamePrompt w in
        let step : SamePrompt d d' =
          left_state I Fl (SamePrompt d) (update I Fl host msg d s) (d', c, s')
            (prompt_waits host msg d s e) u in
        record {
          mode = step.mode ∙ before.mode;
          target = step.target ∙ before.target;
          key = step.key ∙ before.key;
        }

    abbrev pub Deletes : Target → ℕ → Kernel E T → Option (Step I Fl (Machine E T M)) → Type 0
    Deletes target key k none = ⊥
    Deletes target key k (some (d, c, s)) =
        (r : Result Error (Unit {0})) × Removal target k key r s.tables
        × (d.mode ≡ mode_view)
        × Reported r d c

    confirm-Deletes :
        (d : Dash I Fl) (s : Machine E T M) (r : Result Error (Unit {0})) (k : Kernel E T)
        → Removal (confirmed d.confirm_target) s.tables d.confirm_key r k
        → Deletes
            (confirmed d.confirm_target)
            d.confirm_key
            s.tables
            (some ((deleted I Fl d r).0, (deleted I Fl d r).1, record s { tables = k }))
    confirm-Deletes d s (ok u) k h = (ok u, h, refl, refl)
    confirm-Deletes d s (err e) k h = (err e, h, refl, refl)

    pressed_confirm :
        (host : Host) (msg : I.KeyMsg) (d : Dash I Fl) (s : Machine E T M)
        → d.mode ≡ mode_view
        → I.key_name msg ≡ codes "d"
        → update I Fl host (key_msg msg) d s ≡ some (open_confirm I Fl d, no_command, s)
    unfolding update update_view
    pressed_confirm host msg d s mode name = ap (λ m. on_key I Fl m host msg d s) mode ∙ rw name

    pressed_yes :
        (host : Host) (msg : I.KeyMsg) (d : Dash I Fl) (s : Machine E T M)
        → d.mode ≡ mode_confirm_delete
        → I.key_name msg ≡ codes "y"
        → update I Fl host (key_msg msg) d s ≡ some (confirm_delete I Fl d s)
    unfolding update update_confirm_delete
    pressed_yes host msg d s mode name = ap (λ m. on_key I Fl m host msg d s) mode ∙ rw name

    -- If a row is selected in the view, "d" asks about the key of the row and writes nothing;
    -- whatever messages other than keys follow, and whatever the tables have become, "y" then
    -- returns to the view and either deletes that key, and nothing else, from the table whose panel
    -- had the focus, and fetches the tables, or fails, shows the error and leaves the tables as
    -- they were.
    pub delete_selected :
        (host : Host) (d : Dash I Fl) (s : Machine E T M) (ask answer : I.KeyMsg) (key : ℕ)
        (rule : Option FwdRule) (host' : Host) (d' : Dash I Fl) (s' : Machine E T M)
        → d.mode ≡ mode_view
        → I.key_name ask ≡ codes "d"
        → I.key_name answer ≡ codes "y"
        → selected_rule I Fl d ≡ some (key, rule)
        → Waits E T M (open_confirm I Fl d) d'
        → (update I Fl host (key_msg ask) d s ≡ some (open_confirm I Fl d, no_command, s))
          × Deletes (target_of d.focus) key s'.tables (update I Fl host' (key_msg answer) d' s')
    unfolding focus_target
    delete_selected host d s ask answer key rule host' d' s' mode asked answered selected waits =
        let asks = confirm_row I Fl (some (key, rule)) d in
        let same : SamePrompt asks d' =
          rw (open_confirm-some d key rule selected) at (Waits-SamePrompt waits) in
        let target : confirmed d'.confirm_target ≡ target_of d.focus = ap confirmed same.target in
        (
          pressed_confirm host ask d s mode asked,
          subst (Deletes (target_of d.focus) key s'.tables)
              (sym (pressed_yes host' answer d' s' same.mode answered))
              (subst
                (λ k. Deletes (target_of d.focus) k s'.tables (some (confirm_delete I Fl d' s')))
                same.key
                (subst (λ t. Deletes t d'.confirm_key s'.tables (some (confirm_delete I Fl d' s')))
                  target
                  (unfold confirm_delete in
                    confirm-Deletes d' s' _ _
                      (delete_rule-Removal d'.confirm_target d'.confirm_key s'.tables)))),
        )
