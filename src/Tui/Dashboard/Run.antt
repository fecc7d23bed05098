-- ===== src/Tui/Dashboard/Run.antt =====
-- `Run` and `Init` of dashboard.go: how a session starts.
use ebpf_packet_router.Prelude.{ℕ, [], ◌∷◌, List, Result, ok, wrap, ◌>>◌, ℤ}
use ebpf_packet_router.Std.Text.{Bytes, codes}
use ebpf_packet_router.Std.Float64.{Float64}
use ebpf_packet_router.Errors.{Error, starting_dashboard, within_context}
use ebpf_packet_router.Maps.Types.{FwdRule}
use ebpf_packet_router.Maps.Tables.Interface.{EbpfMap}
use ebpf_packet_router.Maps.Tables.Wrappers.{open_teid_map, open_ueip_map}
use ebpf_packet_router.Stats.{PerCpuStat}
use ebpf_packet_router.Tui.TextInput.{TextInput}
use ebpf_packet_router.Tui.Dashboard.State.{
  Machine, Command, fetch, tick_after, batch, Dash, new_model,
}

-- `env` is os.Getenv, "" for a variable that is not set
abbrev pub env_or : (Bytes → Bytes) → Bytes → Bytes → Bytes
env_or env key def = elim (env key) [ [] ↦ def | c ∷ s ↦ c ∷ s ]

module _ (I : TextInput) (Fl : Float64) where
  unfoldable pub configured : (Bytes → Bytes) → ℤ → Dash I Fl
  configured env interval = record (new_model I Fl interval) {
    ping_target = env_or env (codes "PING_TARGET") (codes "8.8.8.8");
    ping_interval = env_or env (codes "PING_INTERVAL") (codes "0.05");
    ping_size = env_or env (codes "PING_SIZE") (codes "64");
    ping_netns = env_or env (codes "PING_NETNS") (codes "ran");
  }

  -- `Init`
  abbrev pub init : Dash I Fl → Command
  init d = batch fetch (tick_after d.interval)

  -- the state and the command with which bubbletea starts
  unfoldable pub run_start :
      {E : EbpfMap FwdRule} {T : EbpfMap ℕ} {M : EbpfMap (List PerCpuStat)}
      → (Bytes → Bytes)
      → ℤ
      → Machine E T M
      → Result Error (Dash I Fl × Command)
  unfolding configured
  run_start {E} env interval s = do
    wrap (within_context starting_dashboard) (open_teid_map E s.tables.teid_table)
    wrap (within_context starting_dashboard) (open_ueip_map E s.tables.ueip_table)
    let d = configured env interval
    ok (d, init d)
