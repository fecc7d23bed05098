-- ===== src/Cmd/AddTeid/Laws.antt =====
-- What add-teid leaves in the kernel.
use ebpf_packet_router.Prelude.{
  ℕ, ◌≡◌, refl, ap, some, Result, ok, err, Yields, Yields-bind, Yields-ok, ◌==◌, value?, not, ◌&&◌,
  ◌⊎◌, inl, inr, if◌then◌else◌,
}
use ebpf_packet_router.Std.Text.{Bytes}
use ebpf_packet_router.Errors.{Error, dmac_flag, smac_flag, dst_ip_flag, src_ip_flag, nat_ip_flag}
use ebpf_packet_router.Maps.Types.{FwdRule, zero_mac, parse_action}
use ebpf_packet_router.Maps.Validate.{validate_rule}
use ebpf_packet_router.Maps.Validate.Laws.{IsComplete, validate_rule-eq-ok}
use ebpf_packet_router.Maps.Tables.Interface.{EbpfMap}
use ebpf_packet_router.Maps.Tables.Wrappers.{view, open_teid_map, teid_put, ensure_tx_port}
use ebpf_packet_router.Maps.Tables.Wrappers.Outcomes.{teid_put_ok, teid_put_failed}
use ebpf_packet_router.Maps.Tables.Wrappers.Ports.{ensure_tx_port_ok, ensure_tx_port_failed}
use ebpf_packet_router.Cmd.Teid.{parse_teid}
use ebpf_packet_router.Cmd.Exec.{Kernel, lift, reads, on_teid_table, on_ports}
use ebpf_packet_router.Cmd.Exec.Post.{bind-Post}
use ebpf_packet_router.Cmd.Flags.{Interfaces, optional, egress_ifindex, mac_flag, address_flag}
use ebpf_packet_router.Cmd.AddTeid.{add_teid}
use ebpf_packet_router.Cmd.AddTeid.Rule.{AddTeidFlags, add_teid_rule}

-- what add-teid has done when it returns: it changed nothing, or it installed a complete rule under
-- the TEID that it was given, and then either provisioned the rule's egress port or failed to
module _ {E : EbpfMap FwdRule} {T : EbpfMap ℕ} (ifaces : Interfaces) (flags : AddTeidFlags)
    (s s' : Kernel E T) where
  pub record IsInstalled (teid : ℕ) (rule : FwdRule) : Type 0 where
    pub built : add_teid_rule ifaces flags ≡ ok (teid, rule)
    pub named : parse_teid flags.teid ≡ ok teid
    pub complete : IsComplete rule
    pub table :
        (k : ℕ) → view E s'.teid_table k ≡ (if teid == k then some rule else view E s.teid_table k)
    pub ueip_table : s'.ueip_table ≡ s.ueip_table
    pub nat_table : s'.nat_table ≡ s.nat_table

module _ (ifaces : Interfaces) (flags : AddTeidFlags) where
  add_teid_rule-Yields :
      Yields
        (λ (built : ℕ × FwdRule). (parse_teid flags.teid ≡ ok built.0) × IsComplete built.1)
        (add_teid_rule ifaces flags)
  unfolding add_teid_rule
  add_teid_rule-Yields = Yields-bind (parse_teid flags.teid) _ λ teid parsed.
      Yields-bind (parse_action flags.action) _ λ action _.
        Yields-bind (optional 0 (egress_ifindex ifaces) flags.out_iface) _ λ out_ifindex _.
          Yields-bind (optional zero_mac (mac_flag dmac_flag) flags.dmac) _ λ dmac _.
            Yields-bind (optional zero_mac (mac_flag smac_flag) flags.smac) _ λ smac _.
              Yields-bind (optional 0 (address_flag dst_ip_flag) flags.dst_ip) _ λ dst_ip _.
                Yields-bind (optional 0 (address_flag src_ip_flag) flags.src_ip) _ λ src_ip _.
                  Yields-bind (optional 0 (address_flag nat_ip_flag) flags.nat_ip) _ λ nat_ip _.
                    Yields-bind (validate_rule _) _
                      λ _ valid. Yields-ok _ (parsed, (validate_rule-eq-ok _).0 valid)

  module _ {E : EbpfMap FwdRule} {T : EbpfMap ℕ} (s : Kernel E T) where
    abbrev pub Outcome : Result Error Bytes → Kernel E T → Type 0
    Outcome (ok line) s' =
        (teid : ℕ) × (rule : FwdRule) × IsInstalled ifaces flags s s' teid rule
        × ((j : ℕ)
            → value? (T.lookup j s'.ports) ≡ (
                if not (rule.out_ifindex == 0) && rule.out_ifindex == j
                then some rule.out_ifindex
                else value? (T.lookup j s.ports)))
    Outcome (err e) s' =
        (s' ≡ s)
        ⊎ ((teid : ℕ) × (rule : FwdRule) × IsInstalled ifaces flags s s' teid rule
            × (s'.ports ≡ s.ports))

    put-IsInstalled :
        (built : ℕ × FwdRule) (p : T.Map)
        → add_teid_rule ifaces flags ≡ ok built
        → (teid_put E built.0 built.1 s.teid_table).0 ≡ ok tt
        → IsInstalled ifaces flags s
            (record s { teid_table = (teid_put E built.0 built.1 s.teid_table).1; ports = p })
            built.0
            built.1
    put-IsInstalled built p made put_ok =
        let (named, complete) = add_teid_rule-Yields.at built made in
        record {
          built = made;
          named = named;
          complete = complete;
          table = λ k. teid_put_ok E s.teid_table built.0 k built.1 put_ok;
          ueip_table = refl;
          nat_table = refl;
        }

    -- Whatever the flags, the interfaces and the kernel: if add-teid succeeds, the rule that it
    -- built from the flags is complete, teid_map holds the rule at the TEID of the flags and what
    -- it held at every other key, tx_port holds the rule's egress index, unless that is 0, and what
    -- it held at every other index, and ueip_map and nat_map are as they were. If it fails, either
    -- the kernel is as it was, or the rule is in teid_map and only the entry of tx_port is missing.
    pub add_teid-Outcome : Outcome (add_teid ifaces flags s).0 (add_teid ifaces flags s).1
    unfolding add_teid
    add_teid-Outcome =
        bind-Post Outcome (lift (add_teid_rule ifaces flags)) _ s (λ e _. inl refl)
          λ built made.
            bind-Post Outcome (reads (λ s. open_teid_map E s.teid_table)) _ s (λ e _. inl refl)
              λ _ _.
                bind-Post Outcome (on_teid_table (teid_put E built.0 built.1)) _ s
                  (λ e failed. inl (
                    ap (λ m. record s { teid_table = m })
                      (teid_put_failed E s.teid_table built.0 built.1 e failed)))
                  λ _ put_ok.
                    bind-Post Outcome (on_ports (ensure_tx_port T built.1.out_ifindex)) _ _
                      (λ e failed. inr (
                        built.0,
                        built.1,
                        put-IsInstalled built _ made put_ok,
                        ensure_tx_port_failed T s.ports built.1.out_ifindex e failed,
                      ))
                      λ _ ensured. (
                        built.0,
                        built.1,
                        put-IsInstalled built _ made put_ok,
                        λ j. ensure_tx_port_ok T s.ports built.1.out_ifindex j ensured,
                      )
