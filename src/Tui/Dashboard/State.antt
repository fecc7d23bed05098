-- ===== src/Tui/Dashboard/State.antt =====
-- The state of the dashboard, the messages that change it, and the commands that it gives to the
-- program of bubbletea.
use ebpf_packet_router.Prelude.{ℕ, Bool, false, List, [], Option, none, Result, ℤ, pos}
use ebpf_packet_router.Std.Text.{Bytes}
use ebpf_packet_router.Std.Float64.{Float64}
use ebpf_packet_router.Errors.{Error, Table}
use ebpf_packet_router.Maps.Types.{FwdRule}
use ebpf_packet_router.Maps.Clock.{Timespec}
use ebpf_packet_router.Maps.Tables.Interface.{EbpfMap}
use ebpf_packet_router.Stats.{Counters, PerCpuStat}
use ebpf_packet_router.Cmd.Exec.{Kernel}
use ebpf_packet_router.Cmd.Flags.{Interfaces}
use ebpf_packet_router.Cmd.Listing.{Line}
use ebpf_packet_router.Tui.TextInput.{TextInput}
use ebpf_packet_router.Tui.Form.{Form}
use ebpf_packet_router.Tui.Form.Texts.{Target}

-- what the code asks of the host while it handles a message
pub record Host : Type 0 where
  pub ifaces : Interfaces
  -- `time.Now()`, as the nanoseconds since the zero time
  pub now : ℕ
  -- the monotonic clock when the row of a key is written
  pub clock : Table → ℕ → Timespec
  -- time.Time.Format("2006-01-02 15:04:05") and Format("15:04:05"), and time.Duration.String
  pub date_text : ℕ → Bytes
  pub clock_text : ℕ → Bytes
  pub duration_text : ℤ → Bytes
  -- `exec.Command(…).Run()` and `os.WriteFile`, with the text of their error, if any
  pub run_command : List Bytes → Option Bytes
  pub write_file : Bytes → Bytes → Option Bytes

-- the pinned maps, and the processes that were run, the last one first
pub record Machine (E : EbpfMap FwdRule) (T : EbpfMap ℕ) (M : EbpfMap (List PerCpuStat))
    : Type 0 where
  pub tables : Kernel E T
  pub stats_table : M.Map
  pub commands : List (List Bytes)

pub data Mode : Type 0 where
  mode_view mode_form mode_confirm_delete mode_help : Mode

pub data PanelFocus : Type 0 where
  focus_teid focus_ueip : PanelFocus

-- a dataMsg without an error
pub record Snapshot : Type 0 where
  pub teid : List (ℕ × FwdRule)
  pub ueip : List (ℕ × FwdRule)
  pub counters : Counters
  pub fetched_at : ℕ

pub data Command : Type 0 where
  no_command fetch quit : Command
  -- `tickCmd` of an interval
  tick_after : ℤ → Command
  batch : Command → Command → Command
  -- `startPingCmd` and `stopPingCmd`
  start_ping : Bytes → Bytes → Bytes → Bytes → Command
  stop_ping : Bytes → Command
  -- `copyCmd` of a snapshot
  copy : Bytes → Command

module _ (I : TextInput) where
  pub data Msg : Type 0 where
    window_size : ℕ → Msg
    key_msg : I.KeyMsg → Msg
    ping_toggled : Bool → Option Bytes → Msg
    copy_result : Bytes → Option Bytes → Msg
    tick_msg : Msg
    data_msg : Result Error Snapshot → Msg
    -- a message of any other type
    other_msg : Msg

  module _ (Fl : Float64) where
    pub record Dash : Type 0 where
      pub interval : ℤ
      pub width : ℕ
      pub ping_on : Bool
      pub ping_target : Bytes
      pub ping_interval : Bytes
      pub ping_size : Bytes
      pub ping_netns : Bytes
      pub mode : Mode
      pub focus : PanelFocus
      pub teid_rows : List Line
      pub ueip_rows : List Line
      pub teid_keys : List ℕ
      pub ueip_keys : List ℕ
      pub teid_selected : ℤ
      pub ueip_selected : ℤ
      pub form : Option (Form I)
      -- none for "", which it is before the first use
      pub confirm_target : Option Target
      pub confirm_key : ℕ
      pub have_data : Bool
      pub last_teid : List (ℕ × FwdRule)
      pub last_ueip : List (ℕ × FwdRule)
      pub last_stat : Option Counters
      pub prev_stat : Option Counters
      pub last_at : ℕ
      pub elapsed : Fl.F
      pub updated_at : ℕ
      pub err : Option Error
      pub status_msg : Bytes
      pub status_until : ℕ

    abbrev pub default_width : ℕ
    default_width = 80

    abbrev pub new_model : ℤ → Dash
    new_model interval = record {
      interval = interval;
      width = default_width;
      ping_on = false;
      ping_target = [];
      ping_interval = [];
      ping_size = [];
      ping_netns = [];
      mode = mode_view;
      focus = focus_teid;
      teid_rows = [];
      ueip_rows = [];
      teid_keys = [];
      ueip_keys = [];
      teid_selected = pos 0;
      ueip_selected = pos 0;
      form = none;
      confirm_target = none;
      confirm_key = 0;
      have_data = false;
      last_teid = [];
      last_ueip = [];
      last_stat = none;
      prev_stat = none;
      last_at = 0;
      elapsed = Fl.zero_float;
      updated_at = 0;
      err = none;
      status_msg = [];
      status_until = 0;
    }
