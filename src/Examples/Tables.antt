-- ===== src/Examples/Tables.antt =====
-- The tables of Data under the wrappers, the listing and the reader of the counters.
use ebpf_packet_router.Prelude.{
  true, ℕ, ◌≡◌, ◌↔◌, ◌&&◌, not, refl, ap, arith, List, [], ◌∷◌, some, ok, value?, succeeded, ◌==◌,
  length, if◌then◌else◌,
}
use ebpf_packet_router.Std.Sort.{sort_keys}
use ebpf_packet_router.Errors.{teid_map}
use ebpf_packet_router.Maps.Types.{FwdRule}
use ebpf_packet_router.Maps.Validate.{validate_rule}
use ebpf_packet_router.Maps.Validate.Laws.{IsComplete, validate_rule-eq-ok}
use ebpf_packet_router.Maps.Tables.GoMap.{find, keys, collect, assign}
use ebpf_packet_router.Maps.Tables.Wrappers.{
  open_teid_map, ueip_list, open_ueip_map, nat_list, open_nat_map, view, teid_list, list_entries,
  ensure_tx_port,
}
use ebpf_packet_router.Maps.Tables.Wrappers.Ports.{ensure_tx_port-lookup}
use ebpf_packet_router.Maps.Tables.Wrappers.Listing.{teid_list-view}
use ebpf_packet_router.Cmd.Listing.{teid_row, list_rules}
use ebpf_packet_router.Cmd.Listing.Tokens.{tokens, padded}
use ebpf_packet_router.Cmd.Listing.Cells.{HasMacs, tokens-teid_row}
use ebpf_packet_router.Cmd.Listing.Sections.{ListOutcome, list_rules-Outcome}
use ebpf_packet_router.Stats.{PerCpuStat, read_from_map}
use ebpf_packet_router.Stats.Laws.{total_of, read_from_map-sums}
use ebpf_packet_router.Examples.TableMap.{table_maps}
use ebpf_packet_router.Examples.Data.{
  kernel, teid_table, limited_rule, tunnel_rule, counters, busy, idle,
}

validate_rule-eq-ok_example : (validate_rule tunnel_rule ≡ ok tt) ↔ IsComplete tunnel_rule
validate_rule-eq-ok_example = validate_rule-eq-ok tunnel_rule

ensure_tx_port-lookup_example :
    value? ((table_maps ℕ).lookup 4 (ensure_tx_port (table_maps ℕ) 4 kernel.ports).1) ≡ (
      if succeeded (ensure_tx_port (table_maps ℕ) 4 kernel.ports).0 && (not (4 == 0) && 4 == 4)
      then some 4
      else value? ((table_maps ℕ).lookup 4 kernel.ports))
ensure_tx_port-lookup_example = ensure_tx_port-lookup (table_maps ℕ) kernel.ports 4 4

-- the table of Data, read
abbrev entries : List (ℕ × FwdRule)
entries = (0xDEAD, limited_rule) ∷ (7, tunnel_rule) ∷ []

is_read : list_entries (table_maps FwdRule) teid_map teid_table ≡ ok entries
unfolding list_entries collect assign
is_read = refl

list_rules-Outcome_example : ListOutcome (λ t k. 9) kernel (list_rules (λ t k. 9) kernel)
list_rules-Outcome_example = list_rules-Outcome (λ t k. 9) kernel

listed : succeeded (list_rules (λ t k. 9) kernel) ≡ true
unfolding list_rules open_teid_map teid_list open_ueip_map ueip_list open_nat_map nat_list
    list_entries
listed = refl

sorted : sort_keys (keys entries) ≡ 7 ∷ 0xDEAD ∷ []
unfolding sort_keys keys
sorted = refl

teid_list-view_example : find 7 entries ≡ view (table_maps FwdRule) teid_table 7
teid_list-view_example =
    teid_list-view (table_maps FwdRule) teid_table 7 (unfold teid_list in is_read)

tunnel_rule-HasMacs : HasMacs tunnel_rule
tunnel_rule-HasMacs = record {
  dmac_given = λ e. omega (arith, ap length e);
  dmac_bytes =
      (omega arith, (omega arith, (omega arith, (omega arith, (omega arith, (omega arith, tt))))));
  smac_given = λ e. omega (arith, ap length e);
  smac_bytes =
      (omega arith, (omega arith, (omega arith, (omega arith, (omega arith, (omega arith, tt))))));
}

tokens-teid_row_example :
    tokens [] (padded (2 ∷ 5 ∷ []) (teid_row 9 7 tunnel_rule)) ≡ teid_row 9 7 tunnel_rule
tokens-teid_row_example = tokens-teid_row tunnel_rule tunnel_rule-HasMacs (2 ∷ 5 ∷ []) 9 7

read_from_map-sums_example :
    read_from_map (table_maps (List PerCpuStat)) counters
    ≡ ok (record { pass = total_of busy; drop = total_of idle; redirect = total_of busy })
read_from_map-sums_example =
    read_from_map-sums (table_maps (List PerCpuStat)) counters busy idle busy (unfold find in refl)
      (unfold find in refl) (unfold find in refl)
