-- ===== src/Tui/Dashboard/Render.antt =====
-- The texts of the panels and of the snapshot, which both take from the dashboard's state.
use ebpf_packet_router.Prelude.{Bool, true, false, ◌++◌, Option, none, some, ℤ, negsuc}
use ebpf_packet_router.Std.Text.{Bytes, codes, newline}
use ebpf_packet_router.Std.Number.{decimal}
use ebpf_packet_router.Std.Pad.{pad_left, pad_right}
use ebpf_packet_router.Std.Float64.{Float64}
use ebpf_packet_router.Stats.{Counters, VerdictStat, zero_stat, format_bytes}
use ebpf_packet_router.Tui.TextInput.{TextInput}
use ebpf_packet_router.Tui.Dashboard.State.{Host, Dash}
use ebpf_packet_router.Tui.Dashboard.Rows.{pps, enforcement_rows}
use ebpf_packet_router.Tui.Dashboard.Table.{render_panel, render_policies}

-- `%-10s  %12s  %12s  %s\n`
abbrev stat_line : Bytes → Bytes → Bytes → Bytes → Bytes
stat_line name packets bytes rate =
    pad_right 10 name
    ++ (codes "  "
        ++ (pad_left 12 packets
            ++ (codes "  " ++ (pad_left 12 bytes ++ (codes "  " ++ (rate ++ newline))))))

module _ (Fl : Float64) where
  -- a verdict's counters of the last snapshot, against those of the one before
  unfoldable pub verdict_line : Fl.F → Bool → Bytes → VerdictStat → VerdictStat → Bytes
  verdict_line elapsed have_prev name cur prev =
      stat_line name (decimal cur.packets) (format_bytes cur.bytes)
        (pad_left 9 (Fl.fixed1 (pps Fl cur.packets prev.packets elapsed have_prev)) ++ codes "/s")

  abbrev prev_of : (Counters → VerdictStat) → Option Counters → VerdictStat
  prev_of verdict none = zero_stat
  prev_of verdict (some c) = verdict c

  abbrev is_there : Option Counters → Bool
  is_there none = false
  is_there (some c) = true

  unfoldable pub render_stats : Fl.F → Option Counters → Option Counters → Bytes
  unfolding verdict_line
  render_stats elapsed none prev = codes "(no data yet)"
  render_stats elapsed (some last) prev =
      let line = verdict_line elapsed (is_there prev) in
      stat_line (codes "VERDICT") (codes "PACKETS") (codes "BYTES") (pad_left 10 (codes "PPS"))
      ++ (stat_line (codes "-------") (codes "-------") (codes "-----") (pad_left 10 (codes "---"))
          ++ (line (codes "PASS") last.pass (prev_of (λ c. c.pass) prev)
              ++ (line (codes "DROP") last.drop (prev_of (λ c. c.drop) prev)
                  ++ line (codes "REDIRECT") last.redirect (prev_of (λ c. c.redirect) prev))))

  module _ (I : TextInput) where
    unfoldable pub teid_panel : Dash I Fl → ℤ → Bytes
    teid_panel d selected = render_panel d.width (codes "TEID") 12 d.teid_rows selected

    unfoldable pub ueip_panel : Dash I Fl → ℤ → Bytes
    ueip_panel d selected = render_panel d.width (codes "UE IP") 15 d.ueip_rows selected

    -- `renderEnforcement`
    unfoldable pub render_enforcement : Host → Dash I Fl → Bytes
    render_enforcement host d =
        render_policies (enforcement_rows host.clock d.last_teid d.last_ueip)

    unfoldable pub dash_stats : Dash I Fl → Bytes
    unfolding render_stats
    dash_stats d = render_stats d.elapsed d.last_stat d.prev_stat

    unfoldable pub plain_snapshot : Host → Dash I Fl → Bytes
    unfolding teid_panel ueip_panel render_enforcement dash_stats
    plain_snapshot host d =
        codes "GTP-U XDP Router - Dashboard Snapshot ("
        ++ (host.date_text host.now
            ++ (codes ")"
                ++ (newline
                    ++ (newline
                        ++ (codes "teid_map"
                            ++ (newline
                                ++ (teid_panel d (negsuc 0)
                                    ++ (newline
                                        ++ (codes "ueip_map"
                                            ++ (newline
                                                ++ (ueip_panel d (negsuc 0)
                                                    ++ (newline
                                                        ++ (codes
                                                            "enforcement (rate-limit / quarantine)"
                                                            ++ (newline
                                                            ++ (render_enforcement host d
                                                            ++ (newline
                                                            ++ (codes "global verdict counters"
                                                            ++ (newline
                                                            ++ dash_stats d))))))))))))))))))
