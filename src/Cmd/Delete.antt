-- ===== src/Cmd/Delete.antt =====
-- gtp-router/control/cmd/del_teid.go, del_ueip.go and del_nat.go: the sub-commands that remove a
-- rule.
pub mod Laws
use ebpf_packet_router.Prelude.{ℕ, ◌++◌, none, some, Result, ok, err}
use ebpf_packet_router.Std.Text.{Bytes, codes}
use ebpf_packet_router.Std.Number.{hex8}
use ebpf_packet_router.Std.Address.{Ip, parse_ip}
use ebpf_packet_router.Errors.{Error, ip_flag, nat_ip_flag, invalid_address}
use ebpf_packet_router.Maps.Types.{FwdRule}
use ebpf_packet_router.Maps.Tables.Interface.{EbpfMap}
use ebpf_packet_router.Maps.Tables.Wrappers.{
  open_teid_map, teid_delete, open_ueip_map, ueip_delete, open_nat_map, nat_delete,
}
use ebpf_packet_router.Cmd.Teid.{parse_teid}
use ebpf_packet_router.Cmd.Exec.{
  Kernel, Exec, lift, reads, ◌>>=◌, ◌>>◌, on_teid_table, on_ueip_table, on_nat_table,
}
use ebpf_packet_router.Cmd.Flags.{ipv4_flag, ipv4_text}

-- `ip := net.ParseIP(…); if ip == nil { return … }`, which lets an IPv6 address through to the table
unfoldable pub any_ip : Bytes → Result Error Ip
any_ip s = elim (parse_ip s) [ none ↦ err (invalid_address ip_flag s) | some ip ↦ ok ip ]

module _ {E : EbpfMap FwdRule} {T : EbpfMap ℕ} where
  unfoldable pub del_teid : Bytes → Exec (Kernel E T) Bytes
  del_teid text = do
    teid ← lift (parse_teid text)
    reads (λ s. open_teid_map E s.teid_table)
    on_teid_table (teid_delete E teid)
    lift (ok (codes "OK  teid_map[0x" ++ hex8 teid ++ codes "] removed"))

  unfoldable pub del_ueip : Bytes → Exec (Kernel E T) Bytes
  del_ueip text = do
    ueip ← lift (any_ip text)
    reads (λ s. open_ueip_map E s.ueip_table)
    on_ueip_table (ueip_delete E ueip)
    lift (ok (codes "OK  ueip_map[" ++ ipv4_text ueip ++ codes "] removed"))

  unfoldable pub del_nat : Bytes → Exec (Kernel E T) Bytes
  del_nat text = do
    ip ← lift (ipv4_flag nat_ip_flag text)
    reads (λ s. open_nat_map E s.nat_table)
    on_nat_table (nat_delete E ip)
    lift (ok (codes "OK  nat_map[" ++ ipv4_text ip ++ codes "] deleted"))
