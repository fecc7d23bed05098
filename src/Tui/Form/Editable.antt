-- ===== src/Tui/Form/Editable.antt =====
-- The rules that the form can show: in the widths of its fields, with an interface of the host.
use ebpf_packet_router.Prelude.{
  ℕ, ◌^◌, ◌%◌, ◌<◌, ◌≡◌, ◌≢◌, sym, ap, ◌∙◌, [], none, some, arith, Bool-cases, ◌⊎◌, inl, inr, ◌==◌,
  ==_iff, ==-ne, ok, leb, if◌then◌else◌,
}
use ebpf_packet_router.Std.Text.{Bytes}
use ebpf_packet_router.Maps.Types.{FwdRule, zero_rule, action_drop, action_encap_fwd}
use ebpf_packet_router.Maps.Validate.Laws.{IsComplete}
use ebpf_packet_router.Cmd.Flags.{Interfaces, interface_by_name, optional}
use ebpf_packet_router.Tui.Form.Texts.{edit_values, interface_by_index}
use ebpf_packet_router.Tui.Form.Build.{interface_field}
use ebpf_packet_router.Tui.Form.Values.{IsKept, IsKeptIf, AreKept, or_text}
use ebpf_packet_router.Tui.Form.Reading.{
  optional-some, IsMac, decimal-IsKept, teid_text-IsKept, ip_string-IsKept, unless_zero-IsKept,
  unless_zero_mac-IsKept,
}

-- an interface of the host whose name and index lead to each other
pub record IsNamed (ifaces : Interfaces) (index : ℕ) : Type 0 where
  pub name : Bytes
  pub by_index : interface_by_index ifaces index ≡ some name
  pub by_name : interface_by_name ifaces name ≡ some index
  pub name_given : name ≢ []
  pub kept : IsKept name

-- a complete rule in the widths of its fields, with an interface that the host has, if it has one
pub record IsEditable (ifaces : Interfaces) (r : FwdRule) : Type 0 where
  pub complete : IsComplete r
  pub egress : (r.out_ifindex ≡ 0) ⊎ IsNamed ifaces r.out_ifindex
  pub narrow_ifindex : r.out_ifindex < 2 ^ 32
  pub dmac : IsMac r.dmac
  pub smac : IsMac r.smac
  pub narrow_teid_out : r.teid_out < 2 ^ 32
  pub narrow_dst_ip : r.dst_ip < 2 ^ 32
  pub narrow_src_ip : r.src_ip < 2 ^ 32
  pub narrow_rate_pps : r.rate_pps < 2 ^ 32
  pub narrow_threshold : r.quarantine_threshold < 2 ^ 32
  pub narrow_seconds : r.quarantine_seconds < 2 ^ 32

-- the action that the picker shows: that of the rule, or drop if the form has no name for it
abbrev pub reopened : ℕ → ℕ
reopened a = if leb a 3 then a else action_drop

-- what the form has a field for; all else is zero
abbrev pub resubmitted : FwdRule → FwdRule
resubmitted r = record zero_rule {
  action = reopened r.action;
  out_ifindex = r.out_ifindex;
  dmac = r.dmac;
  smac = r.smac;
  teid_out = r.teid_out;
  dst_ip = r.dst_ip;
  src_ip = r.src_ip;
  rate_pps = r.rate_pps;
  quarantine_threshold = r.quarantine_threshold;
  quarantine_seconds = r.quarantine_seconds;
}

module _ (ifaces : Interfaces) (r : FwdRule) (editable : IsEditable ifaces r) where
  pub egress_text :
      optional 0
        (interface_field ifaces)
        (or_text (if r.out_ifindex == 0 then none else interface_by_index ifaces r.out_ifindex) [])
      ≡ ok r.out_ifindex
  unfolding interface_field
  egress_text =
      let narrow : r.out_ifindex % 2 ^ 32 ≡ r.out_ifindex =
        omega (arith, editable.narrow_ifindex) in
      elim (Bool-cases (r.out_ifindex == 0)) [
        | inl z ↦ let at : r.out_ifindex ≡ 0 = (==_iff r.out_ifindex 0).0 z in rw z (ap ok (sym at))
        | inr z ↦ elim editable.egress [
          | inl none_set ↦ absurd (==-ne z none_set)
          | inr named ↦
              rw (z, named.by_index)
                (optional-some 0 (interface_field ifaces) named.name named.name_given
                  ∙ rw (named.by_name, interface_field) (ap ok narrow))
        ]
      ]

  -- no test of an action that the picker shows is new
  forwarded : reopened r.action ≢ action_drop → r.action ≢ action_drop
  forwarded ne e = ne (rw e)

  encapsulated : reopened r.action ≡ action_encap_fwd → r.action ≡ action_encap_fwd
  encapsulated e = ground arith

  pub resubmitted-IsComplete : IsComplete (resubmitted r)
  resubmitted-IsComplete = record {
    timed = editable.complete.timed;
    egress = λ ne. editable.complete.egress (forwarded ne);
    destination = λ ne. editable.complete.destination (forwarded ne);
    origin = λ ne. editable.complete.origin (forwarded ne);
    tunnel = λ e. editable.complete.tunnel (encapsulated e);
    outer_destination = λ e. editable.complete.outer_destination (encapsulated e);
    outer_source = λ e. editable.complete.outer_source (encapsulated e);
  }

  egress-IsKept :
      IsKeptIf (if r.out_ifindex == 0 then none else interface_by_index ifaces r.out_ifindex)
  egress-IsKept = elim (Bool-cases (r.out_ifindex == 0)) [
    | inl z ↦ rw z tt
    | inr z ↦ elim editable.egress [
      | inl none_set ↦ absurd (==-ne z none_set)
      | inr named ↦ rw (z, named.by_index) named.kept
    ]
  ]

  pub edit_values-IsKept : AreKept (edit_values ifaces r)
  unfolding edit_values
  edit_values-IsKept = (
    egress-IsKept,
    (
      unless_zero_mac-IsKept r.dmac editable.dmac,
      (
        unless_zero_mac-IsKept r.smac editable.smac,
        (
          unless_zero-IsKept r.teid_out _ (teid_text-IsKept r.teid_out),
          (
            unless_zero-IsKept r.dst_ip _ (ip_string-IsKept r.dst_ip),
            (
              unless_zero-IsKept r.src_ip _ (ip_string-IsKept r.src_ip),
              (
                unless_zero-IsKept r.rate_pps _
                    (decimal-IsKept r.rate_pps editable.narrow_rate_pps),
                (
                  unless_zero-IsKept r.quarantine_threshold _
                      (decimal-IsKept r.quarantine_threshold editable.narrow_threshold),
                  (
                    unless_zero-IsKept r.quarantine_seconds _
                        (decimal-IsKept r.quarantine_seconds editable.narrow_seconds),
                    tt,
                  ),
                ),
              ),
            ),
          ),
        ),
      ),
    ),
  )
