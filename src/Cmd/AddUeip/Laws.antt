-- ===== src/Cmd/AddUeip/Laws.antt =====
-- What add-ueip leaves in the kernel.
use ebpf_packet_router.Prelude.{
  ℕ, ◌≡◌, refl, ap, some, Result, ok, err, Yields, Yields-bind, Yields-ok, ◌==◌, if◌then◌else◌,
}
use ebpf_packet_router.Std.Text.{Bytes}
use ebpf_packet_router.Std.Address.{Ip}
use ebpf_packet_router.Errors.{Error, dmac_flag, smac_flag, dst_ip_flag, src_ip_flag}
use ebpf_packet_router.Maps.Types.{FwdRule, zero_mac, parse_action}
use ebpf_packet_router.Maps.Validate.{validate_rule}
use ebpf_packet_router.Maps.Validate.Laws.{IsComplete, validate_rule-eq-ok}
use ebpf_packet_router.Maps.Tables.Interface.{EbpfMap}
use ebpf_packet_router.Maps.Tables.Wrappers.{view, open_ueip_map, ueip_put, ip_key}
use ebpf_packet_router.Maps.Tables.Wrappers.Outcomes.{ueip_put_ok, ueip_put_failed, ueip_put_key}
use ebpf_packet_router.Cmd.Exec.{Kernel, lift, reads, on_ueip_table}
use ebpf_packet_router.Cmd.Exec.Post.{bind-Post}
use ebpf_packet_router.Cmd.Flags.{Interfaces, optional, egress_ifindex, mac_flag, address_flag}
use ebpf_packet_router.Cmd.AddUeip.{add_ueip}
use ebpf_packet_router.Cmd.AddUeip.Rule.{AddUeipFlags, parse_ueip, add_ueip_rule}

module _ (ifaces : Interfaces) (flags : AddUeipFlags) where
  add_ueip_rule-Yields :
      Yields
        (λ (built : Ip × FwdRule). (parse_ueip flags.ip ≡ ok built.0) × IsComplete built.1)
        (add_ueip_rule ifaces flags)
  unfolding add_ueip_rule
  add_ueip_rule-Yields = Yields-bind (parse_ueip flags.ip) _ λ ueip parsed.
      Yields-bind (parse_action flags.action) _ λ action _.
        Yields-bind (optional 0 (egress_ifindex ifaces) flags.out_iface) _ λ out_ifindex _.
          Yields-bind (optional zero_mac (mac_flag dmac_flag) flags.dmac) _ λ dmac _.
            Yields-bind (optional zero_mac (mac_flag smac_flag) flags.smac) _ λ smac _.
              Yields-bind (optional 0 (address_flag dst_ip_flag) flags.dst_ip) _ λ dst_ip _.
                Yields-bind (optional 0 (address_flag src_ip_flag) flags.src_ip) _ λ src_ip _.
                  Yields-bind (validate_rule _) _
                    λ _ valid. Yields-ok _ (parsed, (validate_rule-eq-ok _).0 valid)

  module _ {E : EbpfMap FwdRule} {T : EbpfMap ℕ} (s : Kernel E T) where
    -- a complete rule is in the table under the key of the address, and nothing else has changed
    pub record IsInstalled (s' : Kernel E T) (ueip : Ip) (key : ℕ) (rule : FwdRule) : Type 0 where
      pub built : add_ueip_rule ifaces flags ≡ ok (ueip, rule)
      pub keyed : ip_key ueip ≡ ok key
      pub complete : IsComplete rule
      pub table :
          (k : ℕ) → view E s'.ueip_table k ≡ (if key == k then some rule else view E s.ueip_table k)
      pub teid_table : s'.teid_table ≡ s.teid_table
      pub nat_table : s'.nat_table ≡ s.nat_table
      pub ports : s'.ports ≡ s.ports

    abbrev pub Outcome : Result Error Bytes → Kernel E T → Type 0
    Outcome (ok line) s' = (ueip : Ip) × (key : ℕ) × (rule : FwdRule) × IsInstalled s' ueip key rule
    Outcome (err e) s' = s' ≡ s

    -- Whatever the flags, the interfaces and the kernel: if add-ueip succeeds, the rule that it
    -- built from the flags is complete, ueip_map holds it under the key of the subscriber's address
    -- and what it held at every other key, and teid_map, nat_map and tx_port are as they were. If
    -- it fails, the kernel is as it was.
    pub add_ueip-Outcome : Outcome (add_ueip ifaces flags s).0 (add_ueip ifaces flags s).1
    unfolding add_ueip
    add_ueip-Outcome =
        bind-Post Outcome (lift (add_ueip_rule ifaces flags)) _ s (λ e _. refl)
          λ built made.
            bind-Post Outcome (reads (λ s. open_ueip_map E s.ueip_table)) _ s (λ e _. refl)
              λ _ _.
                bind-Post Outcome (on_ueip_table (ueip_put E built.0 built.1)) _ s
                  (λ e failed.
                    ap (λ m. record s { ueip_table = m })
                      (ueip_put_failed E s.ueip_table built.0 built.1 e failed))
                  λ _ put_ok.
                    let (key, keyed) = ueip_put_key E s.ueip_table built.0 built.1 put_ok in
                    (
                      built.0,
                      key,
                      built.1,
                      record {
                        built = made;
                        keyed = keyed;
                        complete = (add_ueip_rule-Yields.at built made).1;
                        table = λ k. ueip_put_ok E s.ueip_table built.0 key k built.1 keyed put_ok;
                        teid_table = refl;
                        nat_table = refl;
                        ports = refl;
                      },
                    )
