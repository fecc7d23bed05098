-- ===== src/Tui/Dashboard/Rows.antt =====
-- buildRows and enforcementRows of dashboard.go: the rows of the panels, from the last two snapshots
-- of the tables.
pub mod Policed
pub mod Held
use ebpf_packet_router.Prelude.{
  ℕ, ◌-◌, Bool, true, false, not, ◌&&◌, ◌||◌, List, [], ◌∷◌, ◌++◌, Option, none, some, ◌==◌, ltb,
  if◌then◌else◌,
}
use ebpf_packet_router.Std.Text.{Bytes, codes}
use ebpf_packet_router.Std.Number.{decimal, hex8}
use ebpf_packet_router.Std.Address.{ip_string}
use ebpf_packet_router.Std.Sort.{sort_keys}
use ebpf_packet_router.Std.Float64.{Float64}
use ebpf_packet_router.Errors.{Table, teid_map, ueip_map}
use ebpf_packet_router.Maps.Types.{FwdRule, action_string, uint32_to_ip, format_bytes}
use ebpf_packet_router.Maps.Clock.{Timespec, monotonic_now_ns}
use ebpf_packet_router.Maps.Tables.GoMap.{find, keys}
use ebpf_packet_router.Cmd.Listing.{Line, table_rows}

unfoldable pub format_teid : ℕ → Bytes
format_teid key = codes "0x" ++ hex8 key

unfoldable pub format_ueip : ℕ → Bytes
format_ueip key = ip_string (uint32_to_ip key)

module _ (Fl : Float64) where
  open Fl use {F, zero_float, at_most_zero, of_uint64, divide, fixed1}

  unfoldable pub pps : ℕ → ℕ → F → Bool → F
  pps curr prev elapsed have_prev =
      if not have_prev || (at_most_zero elapsed || ltb curr prev)
      then zero_float
      else divide (of_uint64 (curr - prev)) elapsed

  -- the packets of the rule in the snapshot before, and whether there are such
  abbrev pub packets_before : Bool → Option FwdRule → ℕ × Bool
  packets_before have_prev none = (0, false)
  packets_before have_prev (some p) = (p.pkt_count, have_prev)

  unfoldable pub rule_row : (ℕ → Bytes) → List (ℕ × FwdRule) → F → Bool → ℕ → FwdRule → Line
  unfolding pps
  rule_row key_fmt prev elapsed have_prev k r =
      let (prev_pkts, have_prev_key) = packets_before have_prev (find k prev) in
      let p = pps r.pkt_count prev_pkts elapsed have_prev_key in
      key_fmt k
      ∷ action_string r.action
      ∷ decimal r.out_ifindex
      ∷ decimal r.pkt_count
      ∷ format_bytes r.byte_count
      ∷ (fixed1 p ++ codes "/s")
      ∷ []

  -- the sorted keys, and their rows in the same order
  unfoldable pub build_rows :
      List (ℕ × FwdRule) → List (ℕ × FwdRule) → F → Bool → (ℕ → Bytes) → List ℕ × List Line
  unfolding rule_row
  build_rows curr prev elapsed have_prev key_fmt =
      let ks = sort_keys (keys curr) in
      (ks, table_rows (rule_row key_fmt prev elapsed have_prev) curr ks)

-- `now` is what maps.MonotonicNowNs returns
unfoldable pub enforcement_state : ℕ → FwdRule → Bytes
enforcement_state now r =
    if not (r.quarantine_until_ns == 0) && ltb now r.quarantine_until_ns
    then codes "HELD"
    else if ltb 0 r.quarantine_threshold
    then codes "armed"
    else codes "-"

unfoldable pub enforcement_row : (ℕ → Bytes) → ℕ → ℕ → FwdRule → Line
unfolding enforcement_state
enforcement_row key_fmt now k r =
    key_fmt k
    ∷ (if ltb 0 r.rate_pps then decimal r.rate_pps ++ codes "/s" else codes "-")
    ∷ decimal r.rate_drop_count
    ∷ (if ltb 0 r.quarantine_threshold
        then decimal r.quarantine_threshold
          ++ codes "/"
          ++ decimal r.quarantine_seconds
          ++ codes "s"
        else codes "-")
    ∷ enforcement_state now r
    ∷ []

abbrev pub has_no_policy : FwdRule → Bool
has_no_policy r = r.rate_pps == 0 && r.quarantine_threshold == 0

-- a rule without a cap and without a threshold adds no row
abbrev pub with_policy : (ℕ → FwdRule → Line) → ℕ → Option FwdRule → List Line → List Line
with_policy row k none rows = rows
with_policy row k (some r) rows = if has_no_policy r then rows else row k r ∷ rows

-- the loop of `collect` over the sorted keys
unfoldable pub collect_rows : (ℕ → FwdRule → Line) → List (ℕ × FwdRule) → List ℕ → List Line
collect_rows row m [] = []
collect_rows row m (k ∷ ks) = with_policy row k (find k m) (collect_rows row m ks)

-- `clock` is what the monotonic clock shows when the row of a key is written
unfoldable pub enforcement_rows :
    (Table → ℕ → Timespec) → List (ℕ × FwdRule) → List (ℕ × FwdRule) → List Line
unfolding collect_rows enforcement_row monotonic_now_ns
enforcement_rows clock teid ueip =
    collect_rows (λ k. enforcement_row format_teid (monotonic_now_ns (clock teid_map k)) k) teid
      (sort_keys (keys teid))
    ++ collect_rows (λ k. enforcement_row format_ueip (monotonic_now_ns (clock ueip_map k)) k) ueip
        (sort_keys (keys ueip))
