-- ===== src/Maps/Tables/Wrappers/Laws.antt =====
-- The wrappers implement a finite map: what a table holds at each key, after each method.
use ebpf_packet_router.Prelude.{
  ℕ, ◌^◌, ◌<◌, ◌≡◌, refl, ap, Option, none, some, Option-cases, inl, inr, Result, ok, err, value?,
  ◌==◌, ==_iff, Result-cases, Bool, true, false, ◌&&◌, Bool-cases, succeeded, if◌then◌else◌,
}
use ebpf_packet_router.Std.Address.{to4}
use ebpf_packet_router.Std.Binary.{uint32_be, uint32_be-put}
use ebpf_packet_router.Std.Address.{Ip}
use ebpf_packet_router.Errors.{
  MapError, key_not_exist, map_failure, Error, Table, Key, Context, teid_key, address_key, teid_map,
  ueip_map, nat_map,
}
use ebpf_packet_router.Maps.Types.{FwdRule, uint32_to_ip}
use ebpf_packet_router.Maps.Tables.Interface.{EbpfMap}
use ebpf_packet_router.Maps.Tables.Wrappers.{
  lookup_result, put_entry, delete_entry, teid_put, teid_delete, teid_get, ueip_put, ueip_delete,
  nat_put, nat_delete, ip_key, view,
}

pub value?-if :
    {V : Type 0} (b : Bool) (rule : V) (r : Result MapError V)
    → value? (if b then ok rule else r) ≡ (if b then some rule else value? r)
value?-if true rule r = refl
value?-if false rule r = refl

value?-if_absent :
    (b : Bool) (r : Result MapError FwdRule)
    → value? (if b then err key_not_exist else r) ≡ (if b then none else value? r)
value?-if_absent true r = refl
value?-if_absent false r = refl

lookup_result-ok :
    {V : Type 0} (c : Context) (r : Result MapError V) {o : Option V}
    → lookup_result c r ≡ ok o
    → o ≡ value? r
lookup_result-ok c (ok v) h = cc
lookup_result-ok c (err key_not_exist) h = cc
lookup_result-ok c (err (map_failure n)) h = cc

-- is k the key that an address was parsed to
abbrev pub is_key : Result Error ℕ → ℕ → Bool
is_key (ok key) k = key == k
is_key (err e) k = false

module _ (E : EbpfMap FwdRule) (m : E.Map) where
  pub put_entry-view :
      (t : Table) (key : Key) (k j : ℕ) (rule : FwdRule)
      → view E (put_entry E t key k rule m).1 j
        ≡ (if succeeded (put_entry E t key k rule m).0 && k == j then some rule else view E m j)
  unfolding put_entry
  put_entry-view t key k j rule = elim (Option-cases (E.put k rule m).0) [
    | inl e ↦ rw (e, E.lookup-put k j rule m e) (value?-if (k == j) rule (E.lookup j m))
    | inr (x, e) ↦ rw (e, E.put_failed k rule m x e)
  ]

  absent-view :
      (k j : ℕ)
      → E.lookup k m ≡ err key_not_exist
      → view E m j ≡ (if k == j then none else view E m j)
  absent-view k j e = elim (Bool-cases (k == j)) [
    | inl same ↦ let at : k ≡ j = (==_iff k j).0 same in rw (same, ← at, e)
    | inr other ↦ rw other
  ]

  pub delete_entry-view :
      (t : Table) (key : Key) (k j : ℕ)
      → view E (delete_entry E t key k m).1 j
        ≡ (if succeeded (delete_entry E t key k m).0 && k == j then none else view E m j)
  unfolding delete_entry
  delete_entry-view t key k j = elim (Option-cases (E.delete k m).0) [
    | inl e ↦ rw (e, E.lookup-delete k j m e) (value?-if_absent (k == j) (E.lookup j m))
    | inr (key_not_exist, e) ↦
        rw (e, E.delete_failed k m key_not_exist e) (absent-view k j (E.delete_absent k m e))
    | inr (map_failure n, e) ↦ rw (e, E.delete_failed k m (map_failure n) e)
  ]

  -- After TeidMap.Put, if it succeeds, the table holds the rule at the TEID and what it held at
  -- every other key; if it fails, the table holds what it held.
  pub teid_put-view :
      (teid k : ℕ) (rule : FwdRule)
      → view E (teid_put E teid rule m).1 k
        ≡ (if succeeded (teid_put E teid rule m).0 && teid == k then some rule else view E m k)
  unfolding teid_put
  teid_put-view teid k rule = put_entry-view teid_map (teid_key teid) teid k rule

  -- After TeidMap.Delete, if it succeeds, whether the TEID was there or not, the table holds
  -- nothing at the TEID and what it held at every other key; if it fails, the table holds what it
  -- held.
  pub teid_delete-view :
      (teid k : ℕ)
      → view E (teid_delete E teid m).1 k
        ≡ (if succeeded (teid_delete E teid m).0 && teid == k then none else view E m k)
  unfolding teid_delete
  teid_delete-view teid k = delete_entry-view teid_map (teid_key teid) teid k

  -- Deleting a TEID that the kernel map does not hold is no error.
  pub teid_delete_absent :
      (teid : ℕ) → (E.delete teid m).0 ≡ some key_not_exist → teid_delete E teid m ≡ (ok tt, m)
  unfolding teid_delete
  teid_delete_absent teid e = rw (e, E.delete_failed teid m key_not_exist e)

  -- After UeipMap.Put, if it succeeds, the table holds the rule under the key of the address and
  -- what it held at every other key; if it fails, as it does for an address that is no IPv4
  -- address, the table holds what it held.
  pub ueip_put-view :
      (ueip : Ip) (k : ℕ) (rule : FwdRule)
      → view E (ueip_put E ueip rule m).1 k ≡ (
          if succeeded (ueip_put E ueip rule m).0 && is_key (ip_key ueip) k
          then some rule
          else view E m k)
  unfolding ueip_put
  ueip_put-view ueip k rule = elim (Result-cases (ip_key ueip)) [
    | inl (key, e) ↦ rw e (put_entry-view ueip_map (address_key ueip) key k rule)
    | inr (x, e) ↦ rw e
  ]

  -- After UeipMap.Delete, if it succeeds, the table holds nothing under the key of the address and
  -- what it held at every other key; if it fails, the table holds what it held.
  pub ueip_delete-view :
      (ueip : Ip) (k : ℕ)
      → view E (ueip_delete E ueip m).1 k ≡ (
          if succeeded (ueip_delete E ueip m).0 && is_key (ip_key ueip) k then none else view E m k)
  unfolding ueip_delete
  ueip_delete-view ueip k = elim (Result-cases (ip_key ueip)) [
    | inl (key, e) ↦ rw e (delete_entry-view ueip_map (address_key ueip) key k)
    | inr (x, e) ↦ rw e
  ]

  -- After NatMap.Put, if it succeeds, the table holds the rule under the key of the address and
  -- what it held at every other key; if it fails, the table holds what it held.
  pub nat_put-view :
      (nat_ip : Ip) (k : ℕ) (rule : FwdRule)
      → view E (nat_put E nat_ip rule m).1 k ≡ (
          if succeeded (nat_put E nat_ip rule m).0 && is_key (ip_key nat_ip) k
          then some rule
          else view E m k)
  unfolding nat_put
  nat_put-view nat_ip k rule = elim (Result-cases (ip_key nat_ip)) [
    | inl (key, e) ↦ rw e (put_entry-view nat_map (address_key nat_ip) key k rule)
    | inr (x, e) ↦ rw e
  ]

  -- After NatMap.Delete, if it succeeds, the table holds nothing under the key of the address and
  -- what it held at every other key; if it fails, the table holds what it held.
  pub nat_delete-view :
      (nat_ip : Ip) (k : ℕ)
      → view E (nat_delete E nat_ip m).1 k ≡ (
          if succeeded (nat_delete E nat_ip m).0 && is_key (ip_key nat_ip) k
          then none
          else view E m k)
  unfolding nat_delete
  nat_delete-view nat_ip k = elim (Result-cases (ip_key nat_ip)) [
    | inl (key, e) ↦ rw e (delete_entry-view nat_map (address_key nat_ip) key k)
    | inr (x, e) ↦ rw e
  ]

  -- Get, when it succeeds, returns what the table holds.
  pub teid_get-view : (teid : ℕ) {o : Option FwdRule} → teid_get E teid m ≡ ok o → o ≡ view E m teid
  unfolding teid_get
  teid_get-view teid h = lookup_result-ok _ (E.lookup teid m) h

-- the key that an address stands for
pub ip_key-uint32_to_ip : (n : ℕ) → n < 2 ^ 32 → ip_key (uint32_to_ip n) ≡ ok n
unfolding ip_key uint32_to_ip to4 uint32_be
ip_key-uint32_to_ip n h = ap ok (uint32_be-put n h)
