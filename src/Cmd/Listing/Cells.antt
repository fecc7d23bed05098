-- ===== src/Cmd/Listing/Cells.antt =====
-- Every cell of a row is one token, so that a row splits at its blanks into its columns.
use mathlib.Core.List.{cons-ne-nil}
use ebpf_packet_router.Prelude.{
  ℕ, ◌^◌, ◌<◌, ◌≡◌, ◌≢◌, List, [], ◌++◌, arith, All, All-append, ◌==◌, leb,
}
use ebpf_packet_router.Std.Text.{codes}
use ebpf_packet_router.Std.Text.Laws.{IsGraphic}
use ebpf_packet_router.Std.Number.{decimal, hex8}
use ebpf_packet_router.Std.Number.Laws.{decimal-IsGraphic, decimal-ne-nil, hex8-IsGraphic}
use ebpf_packet_router.Std.Float.{fixed2}
use ebpf_packet_router.Std.Address.{ip_string}
use ebpf_packet_router.Maps.Types.{FwdRule, action_string, mac_string, format_bytes, uint32_to_ip}
use ebpf_packet_router.Maps.Types.Texts.{
  mac_string-IsGraphic, mac_string-ne-nil, ip_string-IsGraphic, ip_string-ne-nil,
}
use ebpf_packet_router.Cmd.Listing.{
  format_rate_cap, quarantine_status, rule_cells, teid_row, ueip_row, nat_row,
}
use ebpf_packet_router.Cmd.Listing.Tokens.{
  tokens, padded, tokens-padded, IsToken, IsToken-append, IsToken-if,
}

decimal-IsToken : (n : ℕ) → IsToken (decimal n)
decimal-IsToken n = (decimal-ne-nil n, decimal-IsGraphic n)

teid_text-IsToken : (n : ℕ) → IsToken (codes "0x" ++ hex8 n)
teid_text-IsToken n = (cons-ne-nil _ _, (omega arith, (omega arith, hex8-IsGraphic n)))

ip_string-IsToken : (n : ℕ) → IsToken (ip_string (uint32_to_ip n))
ip_string-IsToken n = (ip_string-ne-nil n, ip_string-IsGraphic n)

action_string-IsToken : (a : ℕ) → IsToken (action_string a)
unfolding action_string
action_string-IsToken a =
    IsToken-if (a == 0) _ _ (cons-ne-nil _ _, omega arith)
      (IsToken-if (a == 1) _ _ (cons-ne-nil _ _, omega arith)
        (IsToken-if (a == 2) _ _ (cons-ne-nil _ _, omega arith)
          (IsToken-if (a == 3) _ _ (cons-ne-nil _ _, omega arith)
            (IsToken-append (codes "UNKNOWN(") _ (cons-ne-nil _ _, omega arith)
              (All-append IsGraphic (decimal a) _ (decimal-IsGraphic a) (omega arith))))))

fixed2-IsToken : (b k : ℕ) → IsToken (fixed2 b k)
unfolding fixed2
fixed2-IsToken b k =
    IsToken-append (decimal _) _ (decimal-IsToken _) (omega arith, (omega arith, (omega arith, tt)))

format_bytes-IsToken : (b : ℕ) → IsToken (format_bytes b)
unfolding format_bytes
format_bytes-IsToken b =
    IsToken-if (leb (2 ^ 30) b) _ _ (IsToken-append _ _ (fixed2-IsToken b 30) (omega arith)) (
      IsToken-if (leb (2 ^ 20) b) _ _ (IsToken-append _ _ (fixed2-IsToken b 20) (omega arith)) (
        IsToken-if (leb (2 ^ 10) b) _ _ (IsToken-append _ _ (fixed2-IsToken b 10) (omega arith))
          (IsToken-append _ _ (decimal-IsToken b) (omega arith))))

format_rate_cap-IsToken : (r : ℕ) → IsToken (format_rate_cap r)
unfolding format_rate_cap
format_rate_cap-IsToken r =
    IsToken-if (r == 0) _ _ (cons-ne-nil _ _, omega arith)
      (IsToken-append _ _ (decimal-IsToken r) (omega arith))

quarantine_status-IsToken : (now : ℕ) (r : FwdRule) → IsToken (quarantine_status now r)
unfolding quarantine_status
quarantine_status-IsToken now r =
    IsToken-if (r.quarantine_until_ns == 0) _ _ (cons-ne-nil _ _, omega arith)
      (IsToken-if (leb r.quarantine_until_ns now) _ _ (cons-ne-nil _ _, omega arith)
        (IsToken-append (codes "YES(") _ (cons-ne-nil _ _, omega arith)
          (All-append IsGraphic (decimal _) _ (decimal-IsGraphic _) (omega arith))))

-- the bytes of its MACs are bytes
pub record HasMacs (r : FwdRule) : Type 0 where
  pub dmac_given : r.dmac ≢ []
  pub dmac_bytes : All (λ b. b < 256) r.dmac
  pub smac_given : r.smac ≢ []
  pub smac_bytes : All (λ b. b < 256) r.smac

module _ (r : FwdRule) (macs : HasMacs r) where
  mac_cells : IsToken (mac_string r.dmac) × IsToken (mac_string r.smac)
  mac_cells = (
    (mac_string-ne-nil r.dmac macs.dmac_given, mac_string-IsGraphic r.dmac macs.dmac_bytes),
    (mac_string-ne-nil r.smac macs.smac_given, mac_string-IsGraphic r.smac macs.smac_bytes),
  )

  rule_cells-IsToken : (now : ℕ) → All IsToken (rule_cells now r)
  unfolding rule_cells
  rule_cells-IsToken now = (
    action_string-IsToken r.action,
    (
      decimal-IsToken r.out_ifindex,
      (
        mac_cells.0,
        (
          mac_cells.1,
          (
            decimal-IsToken r.pkt_count,
            (
              format_bytes-IsToken r.byte_count,
              (
                format_rate_cap-IsToken r.rate_pps,
                (decimal-IsToken r.rate_drop_count, (quarantine_status-IsToken now r, (tt))),
              ),
            ),
          ),
        ),
      ),
    ),
  )

  -- A row of teid_map in the listing, with any widths of its columns, splits at its blanks into its
  -- ten cells, whatever the TEID, the time and the rule, if the two MACs are not empty and made of
  -- bytes.
  pub tokens-teid_row :
      (pads : List ℕ) (now teid : ℕ)
      → tokens [] (padded pads (teid_row now teid r)) ≡ teid_row now teid r
  unfolding teid_row
  tokens-teid_row pads now teid =
      tokens-padded pads _ (teid_text-IsToken teid, rule_cells-IsToken now)

  -- The same for a row of ueip_map.
  pub tokens-ueip_row :
      (pads : List ℕ) (now key : ℕ)
      → tokens [] (padded pads (ueip_row now key r)) ≡ ueip_row now key r
  unfolding ueip_row
  tokens-ueip_row pads now key =
      tokens-padded pads _ (ip_string-IsToken key, rule_cells-IsToken now)

  -- A row of nat_map in the listing, with any widths of its columns, splits at its blanks into its
  -- eight cells, whatever the key and the rule, if the two MACs are not empty and made of bytes.
  pub tokens-nat_row :
      (pads : List ℕ) (key : ℕ) → tokens [] (padded pads (nat_row key r)) ≡ nat_row key r
  unfolding nat_row
  tokens-nat_row pads key = tokens-padded pads _ (
    ip_string-IsToken key,
    (
      ip_string-IsToken r.nat_ip,
      (
        decimal-IsToken r.out_ifindex,
        (
          mac_cells.0,
          (
            mac_cells.1,
            (
              teid_text-IsToken r.teid_out,
              (decimal-IsToken r.pkt_count, (format_bytes-IsToken r.byte_count, (tt))),
            ),
          ),
        ),
      ),
    ),
  )
