-- ===== src/Cmd/AddNat/Laws.antt =====
-- What add-nat leaves in the kernel.
use ebpf_packet_router.Prelude.{
  ℕ, ◌≡◌, ◌≢◌, arith, ne→==, ◌⊎◌, inl, inr, refl, ap, some, Result, ok, err, Yields, Yields-bind,
  Yields-ok, value?, ◌==◌, if◌then◌else◌,
}
use ebpf_packet_router.Std.Text.{Bytes}
use ebpf_packet_router.Errors.{
  Error, nat_ip_flag, ue_ip_flag, dmac_flag, smac_flag, dst_ip_flag, src_ip_flag,
}
use ebpf_packet_router.Maps.Types.{FwdRule, zero_mac, action_encap_fwd, ip_to_uint32}
use ebpf_packet_router.Maps.Validate.{validate_rule}
use ebpf_packet_router.Maps.Validate.Laws.{IsComplete, validate_rule-eq-ok}
use ebpf_packet_router.Maps.Tables.Interface.{EbpfMap}
use ebpf_packet_router.Maps.Tables.Wrappers.{view, open_nat_map, nat_put, ip_key, ensure_tx_port}
use ebpf_packet_router.Maps.Tables.Wrappers.Outcomes.{nat_put_ok, nat_put_failed, nat_put_key}
use ebpf_packet_router.Maps.Tables.Wrappers.Ports.{ensure_tx_port_ok, ensure_tx_port_failed}
use ebpf_packet_router.Cmd.Exec.{Kernel, lift, reads, on_nat_table, on_ports}
use ebpf_packet_router.Cmd.Exec.Post.{bind-Post}
use ebpf_packet_router.Cmd.Flags.{
  Interfaces, optional, egress_ifindex, mac_flag, address_flag, ipv4_flag,
}
use ebpf_packet_router.Cmd.AddNat.{add_nat}
use ebpf_packet_router.Cmd.AddNat.Rule.{AddNatFlags, NatEntry, add_nat_rule}

module _ (ifaces : Interfaces) (flags : AddNatFlags) where
  -- the entry encapsulates, and restores the subscriber's address
  pub record IsNatEntry (entry : NatEntry) : Type 0 where
    pub complete : IsComplete entry.rule
    pub encapsulates : entry.rule.action ≡ action_encap_fwd
    pub restores : ip_to_uint32 entry.ue_ip ≡ ok entry.rule.nat_ip

  egress-ne-zero : (entry : NatEntry) → IsNatEntry entry → entry.rule.out_ifindex ≢ 0
  egress-ne-zero entry v = v.complete.egress (λ drops. absurd (omega (arith, v.encapsulates)))

  add_nat_rule-Yields : Yields IsNatEntry (add_nat_rule ifaces flags)
  unfolding add_nat_rule
  add_nat_rule-Yields = Yields-bind (ipv4_flag nat_ip_flag flags.nat_ip) _ λ nat_ip _.
      Yields-bind (ipv4_flag ue_ip_flag flags.ue_ip) _ λ ue_ip _.
        Yields-bind (ip_to_uint32 ue_ip) _ λ restored e.
          Yields-bind (optional 0 (egress_ifindex ifaces) flags.out_iface) _ λ out_ifindex _.
            Yields-bind (optional zero_mac (mac_flag dmac_flag) flags.dmac) _ λ dmac _.
              Yields-bind (optional zero_mac (mac_flag smac_flag) flags.smac) _ λ smac _.
                Yields-bind (optional 0 (address_flag dst_ip_flag) flags.dst_ip) _ λ dst_ip _.
                  Yields-bind (optional 0 (address_flag src_ip_flag) flags.src_ip) _ λ src_ip _.
                    Yields-bind (validate_rule _) _ λ _ valid. Yields-ok _ (record {
                      complete = (validate_rule-eq-ok _).0 valid;
                      encapsulates = refl;
                      restores = e;
                    })

  module _ {E : EbpfMap FwdRule} {T : EbpfMap ℕ} (s : Kernel E T) where
    pub record IsInstalled (s' : Kernel E T) (entry : NatEntry) (key : ℕ) : Type 0 where
      pub built : add_nat_rule ifaces flags ≡ ok entry
      pub keyed : ip_key entry.nat_ip ≡ ok key
      pub valid : IsNatEntry entry
      pub table :
          (k : ℕ)
          → view E s'.nat_table k ≡ (if key == k then some entry.rule else view E s.nat_table k)
      pub teid_table : s'.teid_table ≡ s.teid_table
      pub ueip_table : s'.ueip_table ≡ s.ueip_table

    abbrev pub Outcome : Result Error Bytes → Kernel E T → Type 0
    Outcome (ok line) s' =
        (entry : NatEntry) × (key : ℕ) × IsInstalled s' entry key
        × ((j : ℕ)
            → value? (T.lookup j s'.ports) ≡ (
                if entry.rule.out_ifindex == j
                then some entry.rule.out_ifindex
                else value? (T.lookup j s.ports)))
    Outcome (err e) s' =
        (s' ≡ s)
        ⊎ ((entry : NatEntry) × (key : ℕ) × IsInstalled s' entry key × (s'.ports ≡ s.ports))

    put-IsInstalled :
        (entry : NatEntry) (p : T.Map)
        → add_nat_rule ifaces flags ≡ ok entry
        → (nat_put E entry.nat_ip entry.rule s.nat_table).0 ≡ ok tt
        → (key : ℕ) × IsInstalled
            (record s { nat_table = (nat_put E entry.nat_ip entry.rule s.nat_table).1; ports = p })
            entry
            key
    put-IsInstalled entry p made put_ok =
        let (key, keyed) = nat_put_key E s.nat_table entry.nat_ip entry.rule put_ok in
        (
          key,
          record {
            built = made;
            keyed = keyed;
            valid = add_nat_rule-Yields.at entry made;
            table = λ k. nat_put_ok E s.nat_table entry.nat_ip key k entry.rule keyed put_ok;
            teid_table = refl;
            ueip_table = refl;
          },
        )

    -- Whatever the flags, the interfaces and the kernel: if add-nat succeeds, the rule that it
    -- built is a complete encapsulating rule that restores the address of the subscriber, nat_map
    -- holds it under the key of the NAT address and what it held at every other key, tx_port holds
    -- its egress index and what it held at every other index, and teid_map and ueip_map are as they
    -- were. If it fails, either the kernel is as it was, or the rule is in nat_map and only the
    -- entry of tx_port is missing.
    pub add_nat-Outcome : Outcome (add_nat ifaces flags s).0 (add_nat ifaces flags s).1
    unfolding add_nat
    add_nat-Outcome =
        bind-Post Outcome (lift (add_nat_rule ifaces flags)) _ s (λ e _. inl refl)
          λ entry made.
            bind-Post Outcome (reads (λ s. open_nat_map E s.nat_table)) _ s (λ e _. inl refl)
              λ _ _.
                bind-Post Outcome (on_nat_table (nat_put E entry.nat_ip entry.rule)) _ s
                  (λ e failed. inl (
                    ap (λ m. record s { nat_table = m })
                      (nat_put_failed E s.nat_table entry.nat_ip entry.rule e failed)))
                  λ _ put_ok.
                    bind-Post Outcome (on_ports (ensure_tx_port T entry.rule.out_ifindex)) _ _
                      (λ e failed.
                        let (key, installed) = put-IsInstalled entry _ made put_ok in
                        inr (
                          entry,
                          key,
                          installed,
                          ensure_tx_port_failed T s.ports entry.rule.out_ifindex e failed,
                        ))
                      λ _ ensured.
                        let (key, installed) = put-IsInstalled entry _ made put_ok in
                        (
                          entry,
                          key,
                          installed,
                          λ j.
                              rw
                                (ne→== entry.rule.out_ifindex 0
                                  (egress-ne-zero entry installed.valid))
                                at (ensure_tx_port_ok T s.ports entry.rule.out_ifindex j ensured),
                        )
