-- ===== src/Maps/Tables/Wrappers/Outcomes.antt =====
-- The same laws where the outcome of a method is known: what a success has done, that a failure has
-- left the table alone, and that a write that succeeds had an IPv4 address for its key.
use ebpf_packet_router.Prelude.{
  ℕ, ◌≡◌, refl, none, some, Option-cases, inl, inr, Result, ok, err, ◌==◌, Result-cases,
  if◌then◌else◌,
}
use ebpf_packet_router.Std.Address.{Ip}
use ebpf_packet_router.Errors.{
  Error, Table, Key, teid_key, address_key, teid_map, ueip_map, nat_map,
}
use ebpf_packet_router.Maps.Types.{FwdRule}
use ebpf_packet_router.Maps.Tables.Interface.{EbpfMap}
use ebpf_packet_router.Maps.Tables.Wrappers.{
  at_address, put_entry, delete_entry, teid_put, teid_delete, ueip_put, ueip_delete, nat_put,
  nat_delete, ip_key, view,
}
use ebpf_packet_router.Maps.Tables.Wrappers.Laws.{
  teid_put-view, ueip_put-view, nat_put-view, teid_delete-view, ueip_delete-view, nat_delete-view,
}

module _ (E : EbpfMap FwdRule) (m : E.Map) where
  pub put_entry_failed :
      (t : Table) (key : Key) (k : ℕ) (rule : FwdRule) (e : Error)
      → (put_entry E t key k rule m).0 ≡ err e
      → (put_entry E t key k rule m).1 ≡ m
  unfolding put_entry
  put_entry_failed t key k rule x h = elim (Option-cases (E.put k rule m).0) [
    | inl e ↦ let h' = (rw e at h) in cc
    | inr (y, e) ↦ E.put_failed k rule m y e
  ]

  -- the same laws where the outcome is known
  pub teid_put_ok :
      (teid k : ℕ) (rule : FwdRule) {u : Unit {0}}
      → (teid_put E teid rule m).0 ≡ ok u
      → view E (teid_put E teid rule m).1 k ≡ (if teid == k then some rule else view E m k)
  teid_put_ok teid k rule h = rw h at (teid_put-view E m teid k rule)

  pub ueip_put_ok :
      (ueip : Ip) (key k : ℕ) (rule : FwdRule) {u : Unit {0}}
      → ip_key ueip ≡ ok key
      → (ueip_put E ueip rule m).0 ≡ ok u
      → view E (ueip_put E ueip rule m).1 k ≡ (if key == k then some rule else view E m k)
  ueip_put_ok ueip key k rule e h = rw (h, e) at (ueip_put-view E m ueip k rule)

  pub nat_put_ok :
      (nat_ip : Ip) (key k : ℕ) (rule : FwdRule) {u : Unit {0}}
      → ip_key nat_ip ≡ ok key
      → (nat_put E nat_ip rule m).0 ≡ ok u
      → view E (nat_put E nat_ip rule m).1 k ≡ (if key == k then some rule else view E m k)
  nat_put_ok nat_ip key k rule e h = rw (h, e) at (nat_put-view E m nat_ip k rule)

  pub teid_put_failed :
      (teid : ℕ) (rule : FwdRule) (e : Error)
      → (teid_put E teid rule m).0 ≡ err e
      → (teid_put E teid rule m).1 ≡ m
  unfolding teid_put
  teid_put_failed teid rule = put_entry_failed teid_map (teid_key teid) teid rule

  pub ueip_put_failed :
      (ueip : Ip) (rule : FwdRule) (e : Error)
      → (ueip_put E ueip rule m).0 ≡ err e
      → (ueip_put E ueip rule m).1 ≡ m
  unfolding ueip_put
  ueip_put_failed ueip rule e h = elim (Result-cases (ip_key ueip)) [
    | inl (key, k) ↦ rw k (put_entry_failed ueip_map (address_key ueip) key rule e (rw k at h))
    | inr (x, k) ↦ rw k
  ]

  pub nat_put_failed :
      (nat_ip : Ip) (rule : FwdRule) (e : Error)
      → (nat_put E nat_ip rule m).0 ≡ err e
      → (nat_put E nat_ip rule m).1 ≡ m
  unfolding nat_put
  nat_put_failed nat_ip rule e h = elim (Result-cases (ip_key nat_ip)) [
    | inl (key, k) ↦ rw k (put_entry_failed nat_map (address_key nat_ip) key rule e (rw k at h))
    | inr (x, k) ↦ rw k
  ]

-- a write that succeeds had an IPv4 address for its key
at_address_key :
    {M : Type 0} (op : ℕ → M → Result Error (Unit {0}) × M) (r : Result Error ℕ) (m : M)
    {u : Unit {0}}
    → (at_address op r m).0 ≡ ok u
    → (key : ℕ) × (r ≡ ok key)
at_address_key op (ok key) m h = (key, refl)
at_address_key op (err e) m h = cc

module _ (E : EbpfMap FwdRule) (m : E.Map) where
  pub ueip_put_key :
      (ueip : Ip) (rule : FwdRule) {u : Unit {0}}
      → (ueip_put E ueip rule m).0 ≡ ok u
      → (key : ℕ) × (ip_key ueip ≡ ok key)
  unfolding ueip_put
  ueip_put_key ueip rule h = at_address_key _ (ip_key ueip) m h

  pub nat_put_key :
      (nat_ip : Ip) (rule : FwdRule) {u : Unit {0}}
      → (nat_put E nat_ip rule m).0 ≡ ok u
      → (key : ℕ) × (ip_key nat_ip ≡ ok key)
  unfolding nat_put
  nat_put_key nat_ip rule h = at_address_key _ (ip_key nat_ip) m h

  pub ueip_delete_key :
      (ueip : Ip) {u : Unit {0}}
      → (ueip_delete E ueip m).0 ≡ ok u
      → (key : ℕ) × (ip_key ueip ≡ ok key)
  unfolding ueip_delete
  ueip_delete_key ueip h = at_address_key _ (ip_key ueip) m h

  pub nat_delete_key :
      (nat_ip : Ip) {u : Unit {0}}
      → (nat_delete E nat_ip m).0 ≡ ok u
      → (key : ℕ) × (ip_key nat_ip ≡ ok key)
  unfolding nat_delete
  nat_delete_key nat_ip h = at_address_key _ (ip_key nat_ip) m h

  pub delete_entry_failed :
      (t : Table) (key : Key) (k : ℕ) (e : Error)
      → (delete_entry E t key k m).0 ≡ err e
      → (delete_entry E t key k m).1 ≡ m
  unfolding delete_entry
  delete_entry_failed t key k x h = elim (Option-cases (E.delete k m).0) [
    | inl e ↦ let h' = (rw e at h) in cc
    | inr (y, e) ↦ E.delete_failed k m y e
  ]

  pub teid_delete_failed :
      (teid : ℕ) (e : Error) → (teid_delete E teid m).0 ≡ err e → (teid_delete E teid m).1 ≡ m
  unfolding teid_delete
  teid_delete_failed teid = delete_entry_failed teid_map (teid_key teid) teid

  pub ueip_delete_failed :
      (ueip : Ip) (e : Error) → (ueip_delete E ueip m).0 ≡ err e → (ueip_delete E ueip m).1 ≡ m
  unfolding ueip_delete
  ueip_delete_failed ueip e h = elim (Result-cases (ip_key ueip)) [
    | inl (key, k) ↦ rw k (delete_entry_failed ueip_map (address_key ueip) key e (rw k at h))
    | inr (x, k) ↦ rw k
  ]

  pub nat_delete_failed :
      (nat_ip : Ip) (e : Error) → (nat_delete E nat_ip m).0 ≡ err e → (nat_delete E nat_ip m).1 ≡ m
  unfolding nat_delete
  nat_delete_failed nat_ip e h = elim (Result-cases (ip_key nat_ip)) [
    | inl (key, k) ↦ rw k (delete_entry_failed nat_map (address_key nat_ip) key e (rw k at h))
    | inr (x, k) ↦ rw k
  ]

  pub teid_delete_ok :
      (teid k : ℕ) {u : Unit {0}}
      → (teid_delete E teid m).0 ≡ ok u
      → view E (teid_delete E teid m).1 k ≡ (if teid == k then none else view E m k)
  teid_delete_ok teid k h = rw h at (teid_delete-view E m teid k)

  pub ueip_delete_ok :
      (ueip : Ip) (key k : ℕ) {u : Unit {0}}
      → ip_key ueip ≡ ok key
      → (ueip_delete E ueip m).0 ≡ ok u
      → view E (ueip_delete E ueip m).1 k ≡ (if key == k then none else view E m k)
  ueip_delete_ok ueip key k e h = rw (h, e) at (ueip_delete-view E m ueip k)

  pub nat_delete_ok :
      (nat_ip : Ip) (key k : ℕ) {u : Unit {0}}
      → ip_key nat_ip ≡ ok key
      → (nat_delete E nat_ip m).0 ≡ ok u
      → view E (nat_delete E nat_ip m).1 k ≡ (if key == k then none else view E m k)
  nat_delete_ok nat_ip key k e h = rw (h, e) at (nat_delete-view E m nat_ip k)
