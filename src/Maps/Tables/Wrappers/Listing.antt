-- ===== src/Maps/Tables/Wrappers/Listing.antt =====
-- List returns a Go map with the table's entries.
use ebpf_packet_router.Prelude.{ℕ, ◌≡◌, ◌∙◌, List, [], Option-cases, inl, inr, ok}
use ebpf_packet_router.Errors.{Table}
use ebpf_packet_router.Maps.Types.{FwdRule}
use ebpf_packet_router.Maps.Tables.Interface.{EbpfMap}
use ebpf_packet_router.Maps.Tables.GoMap.{find, collect, find-collect}
use ebpf_packet_router.Maps.Tables.Wrappers.{list_entries, teid_list, ueip_list, nat_list, view}

module _ (E : EbpfMap FwdRule) (m : E.Map) {l : List (ℕ × FwdRule)} where
  pub list_entries-view : (t : Table) (k : ℕ) → list_entries E t m ≡ ok l → find k l ≡ view E m k
  unfolding list_entries
  list_entries-view t k h = elim (Option-cases (E.iterate m).1) [
    | inr (x, e) ↦ let h' = (rw e at h) in cc
    | inl e ↦
        let h' = (rw e at h) in
        let got : collect [] (E.iterate m).0 ≡ l = cc in
        rw (← got) (find-collect k (E.iterate m).0 (E.iterate_once m e) ∙ E.iterate_all m k e)
  ]

  -- The map that TeidMap.List returns, when it succeeds, has at each key what the table holds
  -- there.
  pub teid_list-view : (k : ℕ) → teid_list E m ≡ ok l → find k l ≡ view E m k
  unfolding teid_list
  teid_list-view k = list_entries-view _ k

  pub ueip_list-view : (k : ℕ) → ueip_list E m ≡ ok l → find k l ≡ view E m k
  unfolding ueip_list
  ueip_list-view k = list_entries-view _ k

  pub nat_list-view : (k : ℕ) → nat_list E m ≡ ok l → find k l ≡ view E m k
  unfolding nat_list
  nat_list-view k = list_entries-view _ k
