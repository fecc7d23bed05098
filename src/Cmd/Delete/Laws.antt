-- ===== src/Cmd/Delete/Laws.antt =====
-- What the sub-commands that remove a rule leave in the kernel.
use ebpf_packet_router.Prelude.{ℕ, ◌≡◌, refl, ap, none, Result, ok, err, ◌==◌, if◌then◌else◌}
use ebpf_packet_router.Std.Text.{Bytes}
use ebpf_packet_router.Std.Address.{Ip}
use ebpf_packet_router.Errors.{Error, nat_ip_flag}
use ebpf_packet_router.Maps.Types.{FwdRule}
use ebpf_packet_router.Maps.Tables.Interface.{EbpfMap}
use ebpf_packet_router.Maps.Tables.Wrappers.{
  view, ip_key, open_teid_map, teid_delete, open_ueip_map, ueip_delete, open_nat_map, nat_delete,
}
use ebpf_packet_router.Maps.Tables.Wrappers.Outcomes.{
  teid_delete_ok, teid_delete_failed, ueip_delete_ok, ueip_delete_failed, ueip_delete_key,
  nat_delete_ok, nat_delete_failed, nat_delete_key,
}
use ebpf_packet_router.Cmd.Teid.{parse_teid}
use ebpf_packet_router.Cmd.Exec.{Kernel, lift, reads, on_teid_table, on_ueip_table, on_nat_table}
use ebpf_packet_router.Cmd.Exec.Post.{bind-Post}
use ebpf_packet_router.Cmd.Flags.{ipv4_flag}
use ebpf_packet_router.Cmd.Delete.{any_ip, del_teid, del_ueip, del_nat}

module _ {E : EbpfMap FwdRule} {T : EbpfMap ℕ} (text : Bytes) (s : Kernel E T) where
  -- the table without the key, and nothing else has changed
  pub record IsTeidGone (s' : Kernel E T) (teid : ℕ) : Type 0 where
    pub parsed : parse_teid text ≡ ok teid
    pub table :
        (k : ℕ) → view E s'.teid_table k ≡ (if teid == k then none else view E s.teid_table k)
    pub ueip_table : s'.ueip_table ≡ s.ueip_table
    pub nat_table : s'.nat_table ≡ s.nat_table
    pub ports : s'.ports ≡ s.ports

  abbrev pub TeidOutcome : Result Error Bytes → Kernel E T → Type 0
  TeidOutcome (ok line) s' = (teid : ℕ) × IsTeidGone s' teid
  TeidOutcome (err e) s' = s' ≡ s

  -- If del-teid succeeds, teid_map holds nothing at the TEID that its flag names and what it held
  -- at every other key, and everything else in the kernel is as it was. If it fails, the kernel is
  -- as it was.
  pub del_teid-TeidOutcome : TeidOutcome (del_teid text s).0 (del_teid text s).1
  unfolding del_teid
  del_teid-TeidOutcome =
      bind-Post TeidOutcome (lift (parse_teid text)) _ s (λ e _. refl)
        λ teid parsed.
          bind-Post TeidOutcome (reads (λ s. open_teid_map E s.teid_table)) _ s (λ e _. refl)
            λ _ _.
              bind-Post TeidOutcome (on_teid_table (teid_delete E teid)) _ s
                (λ e failed.
                  ap (λ m. record s { teid_table = m })
                    (teid_delete_failed E s.teid_table teid e failed))
                λ _ gone. (
                  teid,
                  record {
                    parsed = parsed;
                    table = λ k. teid_delete_ok E s.teid_table teid k gone;
                    ueip_table = refl;
                    nat_table = refl;
                    ports = refl;
                  },
                )

  pub record IsUeipGone (s' : Kernel E T) (ueip : Ip) (key : ℕ) : Type 0 where
    pub parsed : any_ip text ≡ ok ueip
    pub keyed : ip_key ueip ≡ ok key
    pub table :
        (k : ℕ) → view E s'.ueip_table k ≡ (if key == k then none else view E s.ueip_table k)
    pub teid_table : s'.teid_table ≡ s.teid_table
    pub nat_table : s'.nat_table ≡ s.nat_table
    pub ports : s'.ports ≡ s.ports

  abbrev pub UeipOutcome : Result Error Bytes → Kernel E T → Type 0
  UeipOutcome (ok line) s' = (ueip : Ip) × (key : ℕ) × IsUeipGone s' ueip key
  UeipOutcome (err e) s' = s' ≡ s

  -- If del-ueip succeeds, the flag's address is an IPv4 address, ueip_map holds nothing under its
  -- key and what it held at every other key, and everything else in the kernel is as it was. If it
  -- fails, the kernel is as it was.
  pub del_ueip-UeipOutcome : UeipOutcome (del_ueip text s).0 (del_ueip text s).1
  unfolding del_ueip
  del_ueip-UeipOutcome =
      bind-Post UeipOutcome (lift (any_ip text)) _ s (λ e _. refl)
        λ ueip parsed.
          bind-Post UeipOutcome (reads (λ s. open_ueip_map E s.ueip_table)) _ s (λ e _. refl)
            λ _ _.
              bind-Post UeipOutcome (on_ueip_table (ueip_delete E ueip)) _ s
                (λ e failed.
                  ap (λ m. record s { ueip_table = m })
                    (ueip_delete_failed E s.ueip_table ueip e failed))
                λ _ gone.
                  let (key, keyed) = ueip_delete_key E s.ueip_table ueip gone in
                  (
                    ueip,
                    key,
                    record {
                      parsed = parsed;
                      keyed = keyed;
                      table = λ k. ueip_delete_ok E s.ueip_table ueip key k keyed gone;
                      teid_table = refl;
                      nat_table = refl;
                      ports = refl;
                    },
                  )

  pub record IsNatGone (s' : Kernel E T) (nat_ip : Ip) (key : ℕ) : Type 0 where
    pub parsed : ipv4_flag nat_ip_flag text ≡ ok nat_ip
    pub keyed : ip_key nat_ip ≡ ok key
    pub table : (k : ℕ) → view E s'.nat_table k ≡ (if key == k then none else view E s.nat_table k)
    pub teid_table : s'.teid_table ≡ s.teid_table
    pub ueip_table : s'.ueip_table ≡ s.ueip_table
    pub ports : s'.ports ≡ s.ports

  abbrev pub NatOutcome : Result Error Bytes → Kernel E T → Type 0
  NatOutcome (ok line) s' = (nat_ip : Ip) × (key : ℕ) × IsNatGone s' nat_ip key
  NatOutcome (err e) s' = s' ≡ s

  -- If del-nat succeeds, the flag's address is an IPv4 address, nat_map holds nothing under its key
  -- and what it held at every other key, and everything else in the kernel is as it was. If it
  -- fails, the kernel is as it was.
  pub del_nat-NatOutcome : NatOutcome (del_nat text s).0 (del_nat text s).1
  unfolding del_nat
  del_nat-NatOutcome =
      bind-Post NatOutcome (lift (ipv4_flag nat_ip_flag text)) _ s (λ e _. refl)
        λ nat_ip parsed.
          bind-Post NatOutcome (reads (λ s. open_nat_map E s.nat_table)) _ s (λ e _. refl)
            λ _ _.
              bind-Post NatOutcome (on_nat_table (nat_delete E nat_ip)) _ s
                (λ e failed.
                  ap (λ m. record s { nat_table = m })
                    (nat_delete_failed E s.nat_table nat_ip e failed))
                λ _ gone.
                  let (key, keyed) = nat_delete_key E s.nat_table nat_ip gone in
                  (
                    nat_ip,
                    key,
                    record {
                      parsed = parsed;
                      keyed = keyed;
                      table = λ k. nat_delete_ok E s.nat_table nat_ip key k keyed gone;
                      teid_table = refl;
                      ueip_table = refl;
                      ports = refl;
                    },
                  )
