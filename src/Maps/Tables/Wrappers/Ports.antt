-- ===== src/Maps/Tables/Wrappers/Ports.antt =====
-- The devmap holds an interface once EnsureTxPort has succeeded for it.
use ebpf_packet_router.Prelude.{
  ℕ, ◌≡◌, some, Option-cases, inl, inr, ok, err, value?, ◌==◌, not, ◌&&◌, Bool-cases, succeeded,
  if◌then◌else◌,
}
use ebpf_packet_router.Errors.{Error}
use ebpf_packet_router.Maps.Tables.Interface.{EbpfMap}
use ebpf_packet_router.Maps.Tables.Wrappers.{ensure_tx_port}
use ebpf_packet_router.Maps.Tables.Wrappers.Laws.{value?-if}

module _ (T : EbpfMap ℕ) (m : T.Map) where
  -- EnsureTxPort, if it succeeds for an interface index other than 0, leaves tx_port with the index
  -- at the index; it changes no other entry, and if it fails or the index is 0, no entry at all.
  pub ensure_tx_port-lookup :
      (ifindex j : ℕ)
      → value? (T.lookup j (ensure_tx_port T ifindex m).1) ≡ (
          if succeeded (ensure_tx_port T ifindex m).0 && (not (ifindex == 0) && ifindex == j)
          then some ifindex
          else value? (T.lookup j m))
  unfolding ensure_tx_port
  ensure_tx_port-lookup ifindex j = elim (Bool-cases (ifindex == 0)) [
    | inl none_set ↦ rw none_set
    | inr set ↦ elim (Option-cases (T.load_pinned m)) [
      | inr (x, e) ↦ rw (set, e)
      | inl opened ↦ elim (Option-cases (T.put ifindex ifindex m).0) [
        | inr (x, e) ↦ rw (set, opened, e, T.put_failed ifindex ifindex m x e)
        | inl e ↦
            rw (set, opened, e, T.lookup-put ifindex j ifindex m e)
              (value?-if (ifindex == j) ifindex (T.lookup j m))
      ]
    ]
  ]

  pub ensure_tx_port_failed :
      (ifindex : ℕ) (e : Error)
      → (ensure_tx_port T ifindex m).0 ≡ err e
      → (ensure_tx_port T ifindex m).1 ≡ m
  unfolding ensure_tx_port
  ensure_tx_port_failed ifindex x h = elim (Bool-cases (ifindex == 0)) [
    | inl none_set ↦ rw none_set
    | inr set ↦ elim (Option-cases (T.load_pinned m)) [
      | inr (y, e) ↦ rw (set, e)
      | inl opened ↦ elim (Option-cases (T.put ifindex ifindex m).0) [
        | inr (y, e) ↦ rw (set, opened, T.put_failed ifindex ifindex m y e)
        | inl e ↦ let h' = (rw (set, opened, e) at h) in cc
      ]
    ]
  ]

  pub ensure_tx_port_ok :
      (ifindex j : ℕ) {u : Unit {0}}
      → (ensure_tx_port T ifindex m).0 ≡ ok u
      → value? (T.lookup j (ensure_tx_port T ifindex m).1)
        ≡ (if not (ifindex == 0) && ifindex == j then some ifindex else value? (T.lookup j m))
  ensure_tx_port_ok ifindex j h = rw h at (ensure_tx_port-lookup ifindex j)
