-- ===== src/Tui/Form/Saving.antt =====
-- What the form writes to the tables.
use ebpf_packet_router.Prelude.{
  ℕ, ◌≡◌, refl, ap, Bool, true, false, ◌&&◌, [], some, Result, ok, err, Result-cases, inl, inr,
  get_or, wrap, Yields, Yields-bind, Yields-ok, ◌==◌, if◌then◌else◌,
}
use ebpf_packet_router.Std.Text.{codes, bytes_eq}
use ebpf_packet_router.Errors.{
  Error, parsing, within_context, dmac_flag, smac_flag, teid_out_flag, dst_ip_flag, src_ip_flag,
  rate_pps_flag, q_threshold_flag, q_seconds_flag,
}
use ebpf_packet_router.Maps.Types.{FwdRule, zero_mac, parse_action, uint32_to_ip}
use ebpf_packet_router.Maps.Validate.{validate_rule}
use ebpf_packet_router.Maps.Validate.Laws.{IsComplete, validate_rule-eq-ok}
use ebpf_packet_router.Maps.Tables.Interface.{EbpfMap}
use ebpf_packet_router.Maps.Tables.Wrappers.{view, ip_key}
use ebpf_packet_router.Maps.Tables.Wrappers.Outcomes.{
  teid_put_ok, teid_put_failed, ueip_put_ok, ueip_put_failed, ueip_put_key,
}
use ebpf_packet_router.Cmd.Exec.{Kernel}
use ebpf_packet_router.Cmd.Flags.{Interfaces, optional, mac_flag}
use ebpf_packet_router.Tui.TextInput.{TextInput}
use ebpf_packet_router.Tui.Form.{Form, field_value}
use ebpf_packet_router.Tui.Form.Texts.{Target, teid_target, ueip_target, action_options}
use ebpf_packet_router.Tui.Form.Build.{
  interface_field, address_field, number_field, parse_hex_or_dec, build_key, build_port, build_rule,
}
use ebpf_packet_router.Tui.Form.Update.{
  Next, stays, cancelled, saved, put_rule, submit, update_form,
}

-- the key under which a table holds a rule
abbrev pub stored_key : Target → ℕ → Result Error ℕ
stored_key teid_target key = ok key
stored_key ueip_target key = ip_key (uint32_to_ip key)

module _ {E : EbpfMap FwdRule} {T : EbpfMap ℕ} where
  -- the table of the form, and the other one
  abbrev pub table_of : Target → Kernel E T → E.Map
  table_of teid_target s = s.teid_table
  table_of ueip_target s = s.ueip_table

  abbrev pub other_table : Target → Kernel E T → E.Map
  other_table teid_target s = s.ueip_table
  other_table ueip_target s = s.teid_table

  -- the rule is in the table of the target under the key, and nothing else has changed
  pub record IsWritten (target : Target) (s s' : Kernel E T) (key : ℕ) (rule : FwdRule)
      : Type 0 where
    pub stored : ℕ
    pub keyed : stored_key target key ≡ ok stored
    pub table :
        (k : ℕ)
        → view E (table_of target s') k
          ≡ (if stored == k then some rule else view E (table_of target s) k)
    pub other : other_table target s' ≡ other_table target s
    pub nat_table : s'.nat_table ≡ s.nat_table
    pub ports : s'.ports ≡ s.ports

  pub put_rule_ok :
      (target : Target) (key : ℕ) (rule : FwdRule) (s : Kernel E T) {u : Unit {0}}
      → (put_rule target key rule s).0 ≡ ok u
      → IsWritten target s (put_rule target key rule s).1 key rule
  put_rule_ok teid_target key rule s h = record {
    stored = key;
    keyed = refl;
    table = λ k. teid_put_ok E s.teid_table key k rule h;
    other = refl;
    nat_table = refl;
    ports = refl;
  }
  put_rule_ok ueip_target key rule s h =
      let (stored, keyed) = ueip_put_key E s.ueip_table (uint32_to_ip key) rule h in
      record {
        stored = stored;
        keyed = keyed;
        table = λ k. ueip_put_ok E s.ueip_table (uint32_to_ip key) stored k rule keyed h;
        other = refl;
        nat_table = refl;
        ports = refl;
      }

  pub put_rule_failed :
      (target : Target) (key : ℕ) (rule : FwdRule) (s : Kernel E T) (e : Error)
      → (put_rule target key rule s).0 ≡ err e
      → (put_rule target key rule s).1 ≡ s
  put_rule_failed teid_target key rule s e h =
      ap (λ m. record s { teid_table = m }) (teid_put_failed E s.teid_table key rule e h)
  put_rule_failed ueip_target key rule s e h =
      ap (λ m. record s { ueip_table = m })
        (ueip_put_failed E s.ueip_table (uint32_to_ip key) rule e h)

module _ (I : TextInput) (ifaces : Interfaces) (f : Form I) where
  build_rule-IsComplete :
      Yields (λ (built : ℕ × FwdRule). IsComplete built.1) (build_rule I ifaces f)
  unfolding build_rule
  build_rule-IsComplete =
      let text = field_value I f.fields in
      Yields-bind (parse_action (get_or action_options f.action_idx [])) _ λ action _.
        Yields-bind (build_key I f) _ λ key _.
          Yields-bind (optional 0 (interface_field ifaces) (text (codes "Out-Iface"))) _
            λ out_ifindex _.
              Yields-bind (optional zero_mac (mac_flag dmac_flag) (text (codes "DMac"))) _ λ dmac _.
                Yields-bind (optional zero_mac (mac_flag smac_flag) (text (codes "SMac"))) _
                  λ smac _.
                    Yields-bind
                      (optional 0
                        (λ v. wrap (within_context (parsing teid_out_flag)) (parse_hex_or_dec v))
                        (text (codes "Teid-Out")))
                      _
                      λ teid_out _.
                        Yields-bind (optional 0 (address_field dst_ip_flag) (text (codes "Dst-IP")))
                          _
                          λ dst_ip _.
                            Yields-bind
                              (optional 0 (address_field src_ip_flag) (text (codes "Src-IP"))) _
                              λ src_ip _.
                                Yields-bind
                                  (optional 0 (number_field rate_pps_flag 32)
                                    (text (codes "Rate-PPS")))
                                  _
                                  λ rate_pps _.
                                    Yields-bind
                                      (optional 0 (number_field q_threshold_flag 32)
                                        (text (codes "Q-Threshold")))
                                      _
                                      λ threshold _.
                                        Yields-bind
                                          (optional 0 (number_field q_seconds_flag 32)
                                            (text (codes "Q-Seconds")))
                                          _
                                          λ seconds _.
                                            Yields-bind
                                              (build_port I f.target (text (codes "Dst-Port"))) _
                                              λ dst_port _.
                                                Yields-bind (validate_rule _) _ λ _ valid.
                                                  Yields-ok _ ((validate_rule-eq-ok _).0 valid)

  module _ {E : EbpfMap FwdRule} {T : EbpfMap ℕ} (s : Kernel E T) where
    -- a complete rule that the form has built is written; if the form stays or is cancelled, nothing is
    abbrev pub Outcome : Next I → Kernel E T → Type 0
    Outcome saved s' =
        (key : ℕ) × (rule : FwdRule) × (build_rule I ifaces f ≡ ok (key, rule))
        × IsComplete rule
        × IsWritten f.target s s' key rule
    Outcome cancelled s' = s' ≡ s
    Outcome (stays f') s' = s' ≡ s

    Outcome-if :
        (b : Bool) (x y : Next I × Kernel E T)
        → Outcome x.0 x.1
        → Outcome y.0 y.1
        → Outcome (if b then x else y).0 (if b then x else y).1
    Outcome-if true x y hx hy = hx
    Outcome-if false x y hx hy = hy

    submit-Outcome : Outcome (submit I ifaces f s).0 (submit I ifaces f s).1
    unfolding submit
    submit-Outcome = elim (Result-cases (build_rule I ifaces f)) [
      | inr (e, h) ↦ rw h refl
      | inl ((key, rule), h) ↦ elim (Result-cases (put_rule f.target key rule s).0) [
        | inl (u, w) ↦
            let written = put_rule_ok f.target key rule s w in
            rw (h, w) (key, rule, h, build_rule-IsComplete.at (key, rule) h, written)
        | inr (e, w) ↦ rw (h, w) (put_rule_failed f.target key rule s e w)
      ]
    ]

    -- Whatever key comes to the form: if the form closes with its rule saved, the rule that it
    -- built is complete, the table of its target holds it under its key and what it held at every
    -- other key, and the other tables and tx_port are as they were. If the form stays, with an
    -- error or without, or is cancelled, the kernel is as it was.
    pub update_form-Outcome :
        (msg : I.KeyMsg) → Outcome (update_form I ifaces msg f s).0 (update_form I ifaces msg f s).1
    unfolding update_form
    update_form-Outcome msg =
        let is = bytes_eq (I.key_name msg) in
        Outcome-if (is (codes "esc")) _ _ refl (
          Outcome-if (is (codes "tab")) _ _ refl (
            Outcome-if (is (codes "shift+tab")) _ _ refl (
              Outcome-if (is (codes "left") && _) _ _ refl (
                Outcome-if (is (codes "right") && _) _ _ refl
                  (Outcome-if (is (codes "enter")) _ _ submit-Outcome refl)))))
