-- ===== src/Tui/Dashboard/Invariant.antt =====
-- The invariant of the state in dashboard.go, and the states that a session reaches.
pub mod Panels
pub mod Edits
pub mod Messages
pub mod Sessions
pub mod Fetching
use mathlib.Core.List.{Mem}
use ebpf_packet_router.Prelude.{
  ℕ, ◌-◌, ◌≤◌, ◌≡◌, ◌≢◌, ◌↔◌, List, [], ◌∷◌, Option, none, some, Result, ok, err, ℤ, pos, negsuc,
  length,
}
use ebpf_packet_router.Std.Text.{Bytes}
use ebpf_packet_router.Std.Sort.Laws.{Ascending}
use ebpf_packet_router.Std.Float64.{Float64}
use ebpf_packet_router.Errors.{Error}
use ebpf_packet_router.Maps.Types.{FwdRule}
use ebpf_packet_router.Maps.Tables.Interface.{EbpfMap}
use ebpf_packet_router.Maps.Tables.GoMap.{find, HasKeysOnce}
use ebpf_packet_router.Stats.{PerCpuStat}
use ebpf_packet_router.Cmd.Listing.{Line}
use ebpf_packet_router.Tui.TextInput.{TextInput}
use ebpf_packet_router.Tui.Form.{Form}
use ebpf_packet_router.Tui.Form.Places.{IsInPlace}
use ebpf_packet_router.Tui.Dashboard.State.{
  Host, Machine, Snapshot, Command, mode_form, Dash, Msg, window_size, key_msg, ping_toggled,
  copy_result, tick_msg, data_msg, other_msg,
}
use ebpf_packet_router.Tui.Dashboard.Rows.{format_teid, format_ueip}
use ebpf_packet_router.Tui.Dashboard.Update.{Step, update}

-- there is a row for each key, and it begins with the text of the key
abbrev pub Shows : (ℕ → Bytes) → List ℕ → List Line → Type 0
Shows key_fmt [] [] = Unit
Shows key_fmt [] (r ∷ rows) = ⊥
Shows key_fmt (k ∷ ks) [] = ⊥
Shows key_fmt (k ∷ ks) ([] ∷ rows) = ⊥
Shows key_fmt (k ∷ ks) ((c ∷ r) ∷ rows) = (c ≡ key_fmt k) × Shows key_fmt ks rows

-- an index from 0 to a bound
abbrev pub Within : ℕ → ℤ → Type 0
Within hi (pos i) = i ≤ hi
Within hi (negsuc n) = ⊥

-- the keys are those of the rules, each once and in ascending order, the rows are theirs, and the
-- selection is on one of them, or on 0 if there is none
pub record IsPanel (key_fmt : ℕ → Bytes) (rules : List (ℕ × FwdRule)) (ks : List ℕ)
    (rows : List Line) (selected : ℤ) : Type 0 where
  pub ascending : Ascending ks
  pub complete : (k : ℕ) → Mem k ks ↔ (find k rules ≢ none)
  pub shown : Shows key_fmt ks rows
  pub selection : Within (length ks - 1) selected

module _ (I : TextInput) (Fl : Float64) where
  pub record IsSound (d : Dash I Fl) : Type 0 where
    pub teid : IsPanel format_teid d.last_teid d.teid_keys d.teid_rows d.teid_selected
    pub ueip : IsPanel format_ueip d.last_ueip d.ueip_keys d.ueip_rows d.ueip_selected
    pub form_open : d.mode ≡ mode_form → d.form ≢ none
    pub form_in_place : (f : Form I) → d.form ≡ some f → IsInPlace I f

  -- a message as the commands send it: the maps of a snapshot have each key once
  abbrev pub IsFetched : Msg I → Type 0
  IsFetched (data_msg (ok m)) = HasKeysOnce m.teid × HasKeysOnce m.ueip
  IsFetched (data_msg (err e)) = Unit
  IsFetched (window_size width) = Unit
  IsFetched (key_msg msg) = Unit
  IsFetched (ping_toggled on e) = Unit
  IsFetched (copy_result path e) = Unit
  IsFetched tick_msg = Unit
  IsFetched other_msg = Unit

  -- P holds of the state that a step leaves, and the step does not panic
  abbrev pub Leaves : {S : Type 0} → (Dash I Fl → Type 0) → Option (Step I Fl S) → Type 0
  Leaves P none = ⊥
  Leaves P (some x) = P x.0

  module _ {E : EbpfMap FwdRule} {T : EbpfMap ℕ} {M : EbpfMap (List PerCpuStat)} where
    -- what a session that began in a state may reach: messages come at any time, and other programs
    -- and the packets may write to the maps between them
    pub data Reaches (start : Dash I Fl) : Dash I Fl → Machine E T M → Type 0 where
      begin : (s : Machine E T M) → Reaches start start s
      receive :
          {d : Dash I Fl} {s : Machine E T M} (host : Host) (msg : Msg I) (d' : Dash I Fl)
          (c : Command) (s' : Machine E T M)
          → Reaches start d s
          → IsFetched msg
          → update I Fl host msg d s ≡ some (d', c, s')
          → Reaches start d' s'
      elsewhere :
          {d : Dash I Fl} {s : Machine E T M} (s' : Machine E T M)
          → Reaches start d s
          → Reaches start d s'
