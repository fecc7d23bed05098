-- ===== src/Cmd/Listing.antt =====
-- gtp-router/control/cmd/list.go: `gtp-ctrl list`. A line is the list of the cells that `Fprintf`
-- writes with tabs between them; nothing is printed before the last table has been read.
pub mod Tokens
pub mod Cells
pub mod Rows
pub mod Sections
use ebpf_packet_router.Prelude.{
  ℕ, ◌-◌, ◌/◌, List, [], ◌∷◌, ◌++◌, map, Option, none, some, Result, ok, ◌>>=◌, ◌>>◌, ◌==◌, leb,
  length, if◌then◌else◌,
}
use ebpf_packet_router.Std.Text.{Bytes, codes}
use ebpf_packet_router.Std.Number.{decimal, hex8}
use ebpf_packet_router.Std.Address.{ip_string}
use ebpf_packet_router.Std.Sort.{sort_keys}
use ebpf_packet_router.Errors.{Error, Table, teid_map, ueip_map}
use ebpf_packet_router.Maps.Types.{FwdRule, action_string, mac_string, format_bytes, uint32_to_ip}
use ebpf_packet_router.Maps.Tables.Interface.{EbpfMap}
use ebpf_packet_router.Maps.Tables.GoMap.{find, keys}
use ebpf_packet_router.Maps.Tables.Wrappers.{
  open_teid_map, teid_list, open_ueip_map, ueip_list, open_nat_map, nat_list,
}
use ebpf_packet_router.Cmd.Exec.{Kernel}

abbrev pub Line : Type 0
Line = List Bytes

unfoldable pub format_rate_cap : ℕ → Bytes
format_rate_cap rate_pps = if rate_pps == 0 then codes "-" else decimal rate_pps ++ codes "/s"

-- `now` is what maps.MonotonicNowNs returned
unfoldable pub quarantine_status : ℕ → FwdRule → Bytes
quarantine_status now r =
    if r.quarantine_until_ns == 0
    then codes "-"
    else if leb r.quarantine_until_ns now
    then codes "pending-release"
    else codes "YES(" ++ decimal ((r.quarantine_until_ns - now) / 1000000000) ++ codes "s)"

-- the cells that teid_map and ueip_map share
unfoldable pub rule_cells : ℕ → FwdRule → Line
unfolding format_rate_cap quarantine_status
rule_cells now r =
    action_string r.action
    ∷ decimal r.out_ifindex
    ∷ mac_string r.dmac
    ∷ mac_string r.smac
    ∷ decimal r.pkt_count
    ∷ format_bytes r.byte_count
    ∷ format_rate_cap r.rate_pps
    ∷ decimal r.rate_drop_count
    ∷ quarantine_status now r
    ∷ []

unfoldable pub teid_row : ℕ → ℕ → FwdRule → Line
unfolding rule_cells
teid_row now teid r = (codes "0x" ++ hex8 teid) ∷ rule_cells now r

unfoldable pub ueip_row : ℕ → ℕ → FwdRule → Line
unfolding rule_cells
ueip_row now key r = ip_string (uint32_to_ip key) ∷ rule_cells now r

unfoldable pub nat_row : ℕ → FwdRule → Line
nat_row key r =
    ip_string (uint32_to_ip key)
    ∷ ip_string (uint32_to_ip r.nat_ip)
    ∷ decimal r.out_ifindex
    ∷ mac_string r.dmac
    ∷ mac_string r.smac
    ∷ (codes "0x" ++ hex8 r.teid_out)
    ∷ decimal r.pkt_count
    ∷ format_bytes r.byte_count
    ∷ []

abbrev pub rule_titles : Line
rule_titles =
    codes "ACTION"
    ∷ codes "IFINDEX"
    ∷ codes "DST-MAC"
    ∷ codes "SRC-MAC"
    ∷ codes "PACKETS"
    ∷ codes "BYTES"
    ∷ codes "RATE-CAP"
    ∷ codes "RATE-DROPS"
    ∷ codes "QUARANTINE"
    ∷ []

abbrev pub nat_titles : Line
nat_titles =
    codes "NAT-IP"
    ∷ codes "UE-IP"
    ∷ codes "IFINDEX"
    ∷ codes "DST-MAC"
    ∷ codes "SRC-MAC"
    ∷ codes "TEID-OUT"
    ∷ codes "PACKETS"
    ∷ codes "BYTES"
    ∷ []

-- the dashes under a title
abbrev pub underline : Bytes → Bytes
underline [] = []
underline (c ∷ s) = b'-' ∷ underline s

-- a key without a rule adds no row
abbrev pub with_row : (ℕ → FwdRule → Line) → ℕ → Option FwdRule → List Line → List Line
with_row row k none rows = rows
with_row row k (some r) rows = row k r ∷ rows

-- `for _, key := range keys { r := entries[key]; … }`; every key is one of the map, so that there is
-- a rule
unfoldable pub table_rows : (ℕ → FwdRule → Line) → List (ℕ × FwdRule) → List ℕ → List Line
table_rows row entries [] = []
table_rows row entries (k ∷ ks) = with_row row k (find k entries) (table_rows row entries ks)

unfoldable pub section : Bytes → Line → (ℕ → FwdRule → Line) → List (ℕ × FwdRule) → List Line
unfolding table_rows
section name titles row [] =
    ((codes "=== " ++ name ++ codes " (0 entries) ===") ∷ []) ∷ (codes "(empty)" ∷ []) ∷ []
section name titles row (entry ∷ entries) =
    ((codes "=== "
        ++ name
        ++ codes " ("
        ++ decimal (length (entry ∷ entries))
        ++ codes " entries) ===")
      ∷ [])
    ∷ titles
    ∷ map underline titles
    ∷ table_rows row (entry ∷ entries) (sort_keys (keys (entry ∷ entries)))

module _ {E : EbpfMap FwdRule} {T : EbpfMap ℕ} where
  -- `clock` is the time at which the row of a key is written
  unfoldable pub list_rules : (Table → ℕ → ℕ) → Kernel E T → Result Error (List Line)
  unfolding section
  list_rules clock s = do
    open_teid_map E s.teid_table
    teids ← teid_list E s.teid_table
    open_ueip_map E s.ueip_table
    ueips ← ueip_list E s.ueip_table
    open_nat_map E s.nat_table
    nats ← nat_list E s.nat_table
    ok (
        section (codes "teid_map") (codes "TEID" ∷ rule_titles) (λ k. teid_row (clock teid_map k) k)
          teids
        ++ ([] ∷ [])
        ++ section (codes "ueip_map") (codes "UE-IP" ∷ rule_titles)
            (λ k. ueip_row (clock ueip_map k) k) ueips
        ++ ([] ∷ [])
        ++ section (codes "nat_map") nat_titles nat_row nats)
