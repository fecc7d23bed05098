-- ===== src/Tui/Dashboard/Invariant/Fetching.antt =====
-- The messages that the commands of dashboard.go send are those that the states of a session come
-- from.
use ebpf_packet_router.Prelude.{ℕ, List, [], ◌∷◌, ok, err, All}
use ebpf_packet_router.Std.Float64.{Float64}
use ebpf_packet_router.Maps.Types.{FwdRule}
use ebpf_packet_router.Maps.Tables.Interface.{EbpfMap}
use ebpf_packet_router.Stats.{PerCpuStat}
use ebpf_packet_router.Cmd.Exec.{Kernel}
use ebpf_packet_router.Tui.TextInput.{TextInput}
use ebpf_packet_router.Tui.Dashboard.State.{
  Host, Machine, Command, Msg, window_size, key_msg, ping_toggled, copy_result, tick_msg, data_msg,
  other_msg,
}
use ebpf_packet_router.Tui.Dashboard.Commands.{run_command}
use ebpf_packet_router.Tui.Dashboard.Commands.Current.{IsCurrent, run_command-Ran}
use ebpf_packet_router.Tui.Dashboard.Invariant.{IsFetched}

module _ {E : EbpfMap FwdRule} {T : EbpfMap ℕ} (M : EbpfMap (List PerCpuStat)) (host : Host)
    (I : TextInput) (Fl : Float64) (tables : Kernel E T) (stats : M.Map) where
  current-IsFetched : (msg : Msg I) → IsCurrent M host tables stats I msg → IsFetched I Fl msg
  current-IsFetched (data_msg (ok m)) h = (h.teids.once, h.ueips.once)
  current-IsFetched (data_msg (err e)) h = tt
  current-IsFetched (window_size width) h = tt
  current-IsFetched (key_msg msg) h = tt
  current-IsFetched (ping_toggled on e) h = tt
  current-IsFetched (copy_result path e) h = tt
  current-IsFetched tick_msg h = tt
  current-IsFetched other_msg h = tt

  All-IsFetched :
      (msgs : List (Msg I)) → All (IsCurrent M host tables stats I) msgs → All (IsFetched I Fl) msgs
  All-IsFetched [] h = tt
  All-IsFetched (msg ∷ msgs) (h, hs) = (current-IsFetched msg h, All-IsFetched msgs hs)

module _ {E : EbpfMap FwdRule} {T : EbpfMap ℕ} {M : EbpfMap (List PerCpuStat)} (host : Host)
    (I : TextInput) (Fl : Float64) where
  -- Every message that a command of the dashboard sends has, if it brings a snapshot, each key of
  -- the two maps once.
  pub run_command-IsFetched :
      (c : Command) (s : Machine E T M) → All (IsFetched I Fl) (run_command I host c s).0
  run_command-IsFetched c s =
      All-IsFetched M host I Fl s.tables s.stats_table _ (run_command-Ran host I c s).current
