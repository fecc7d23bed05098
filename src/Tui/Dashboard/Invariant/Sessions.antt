-- ===== src/Tui/Dashboard/Invariant/Sessions.antt =====
-- Sessions of dashboard.go, from their start on.
use mathlib.Core.List.{not-mem-nil}
use ebpf_packet_router.Prelude.{ℕ, ◌≡◌, ◌≢◌, refl, List, [], Option, none, some, ℤ, arith}
use ebpf_packet_router.Std.Float64.{Float64}
use ebpf_packet_router.Errors.{Error}
use ebpf_packet_router.Maps.Types.{FwdRule}
use ebpf_packet_router.Maps.Tables.Interface.{EbpfMap}
use ebpf_packet_router.Maps.Tables.GoMap.{find}
use ebpf_packet_router.Stats.{PerCpuStat}
use ebpf_packet_router.Tui.TextInput.{TextInput}
use ebpf_packet_router.Tui.Dashboard.State.{
  Host, Machine, Dash, Msg, Mode, mode_view, mode_form, mode_confirm_delete, mode_help,
}
use ebpf_packet_router.Tui.Styles.{Styles}
use ebpf_packet_router.Tui.Form.{Form}
use ebpf_packet_router.Tui.Dashboard.View.{view, form_view, mode_text, error_or}
use ebpf_packet_router.Tui.Dashboard.Run.{configured}
use ebpf_packet_router.Tui.Dashboard.Update.{Step, update}
use ebpf_packet_router.Tui.Dashboard.Invariant.{
  IsPanel, IsSound, IsFetched, Leaves, Reaches, begin, receive, elsewhere,
}
use ebpf_packet_router.Tui.Dashboard.Invariant.Messages.{update-IsSound}

empty-IsPanel : (key_fmt : ℕ → List ℕ) → IsPanel key_fmt [] [] [] (ℤ.pos 0)
unfolding find
empty-IsPanel key_fmt = record {
  ascending = tt;
  complete = λ k. (λ m. absurd (not-mem-nil m), λ ne. absurd (ne refl));
  shown = tt;
  selection = omega arith;
}

module _ (I : TextInput) (Fl : Float64) where
  form_view-some :
      (St : Styles) (form : Option (Form I))
      → form ≢ none
      → (page : List ℕ) × (form_view St I Fl form ≡ some page)
  form_view-some St none h = absurd (h refl)
  form_view-some St (some f) h = (_, refl)

  configured-IsSound :
      (env : List ℕ → List ℕ) (interval : ℤ) → IsSound I Fl (configured I Fl env interval)
  unfolding configured
  configured-IsSound env interval = record {
    teid = empty-IsPanel _;
    ueip = empty-IsPanel _;
    form_open = λ e. cc;
    form_in_place = λ f e. cc;
  }

  pub left_state :
      {S : Type 0} (P : Dash I Fl → Type 0) (o : Option (Step I Fl S)) (x : Step I Fl S)
      → Leaves I Fl P o
      → o ≡ some x
      → P x.0
  left_state P none x h e = elim h [ ]
  left_state P (some y) x h e = let same : y ≡ x = cc in rw (← same) h

  -- the text of each mode
  mode_text-some :
      (St : Styles) (host : Host) (d : Dash I Fl) (mode : Mode)
      → d.mode ≡ mode
      → IsSound I Fl d
      → (page : List ℕ) × (mode_text St I Fl mode host d ≡ some page)
  mode_text-some St host d mode_form e h = form_view-some St d.form (h.form_open e)
  mode_text-some St host d mode_confirm_delete e h = (_, refl)
  mode_text-some St host d mode_help e h = (_, refl)
  mode_text-some St host d mode_view e h = (_, refl)

  error_or-some :
      (St : Styles) (e : Option Error) (o : Option (List ℕ))
      → (page : List ℕ) × (o ≡ some page)
      → (page : List ℕ) × (error_or St I Fl e o ≡ some page)
  error_or-some St (some e) o h = (_, refl)
  error_or-some St none o h = h

  view-some :
      (St : Styles) (host : Host) (d : Dash I Fl)
      → IsSound I Fl d
      → (page : List ℕ) × (view St I Fl host d ≡ some page)
  unfolding view
  view-some St host d h = error_or-some St d.err _ (mode_text-some St host d d.mode refl h)

  module _ {E : EbpfMap FwdRule} {T : EbpfMap ℕ} {M : EbpfMap (List PerCpuStat)} where
    Reaches-IsSound :
        {start d : Dash I Fl} {s : Machine E T M}
        → IsSound I Fl start
        → Reaches I Fl start d s
        → IsSound I Fl d
    Reaches-IsSound sound (begin s) = sound
    Reaches-IsSound sound (receive {d} {s} host msg d' c s' r fetched e) =
        left_state (IsSound I Fl) (update I Fl host msg d s) (d', c, s')
          (update-IsSound I Fl host msg d s fetched (Reaches-IsSound sound r)) e
    Reaches-IsSound sound (elsewhere s' r) = Reaches-IsSound sound r

    -- In any state that a dashboard reaches from its start, by messages whose snapshots have each
    -- key once and with other programs writing to the tables between them, the rows of each panel
    -- are those of the last snapshot's keys, in ascending order, the selection is on a row, or on 0
    -- if there is none, and the form, if one is shown, is there and in place; no such message makes
    -- Update panic or leaves a state without this, and View does not panic.
    pub session-IsSound :
        (env : List ℕ → List ℕ) (interval : ℤ) (d : Dash I Fl) (s : Machine E T M) (host : Host)
        (msg : Msg I) (St : Styles)
        → Reaches I Fl (configured I Fl env interval) d s
        → IsFetched I Fl msg
        → IsSound I Fl d
          × Leaves I Fl (IsSound I Fl) (update I Fl host msg d s)
          × ((page : List ℕ) × (view St I Fl host d ≡ some page))
    session-IsSound env interval d s host msg St r fetched =
        let sound = Reaches-IsSound (configured-IsSound env interval) r in
        (sound, update-IsSound I Fl host msg d s fetched sound, view-some St host d sound)
