-- ===== src/Maps/Tables/Wrappers.antt =====
-- The methods of TeidMap, UeipMap, NatMap and TxPortMap in maps.go. Closing a map changes nothing
-- that the model keeps, so `Close` has no definition here.
pub mod Laws
pub mod Outcomes
pub mod Ports
pub mod Listing
use ebpf_packet_router.Prelude.{
  ℕ, ◌≡◌, List, [], Option, none, some, Result, ok, err, ◌>>=◌, ◌==◌, value?, if◌then◌else◌,
}
use ebpf_packet_router.Std.Binary.{uint32_be}
use ebpf_packet_router.Std.Address.{Ip, to4}
use ebpf_packet_router.Errors.{
  MapError, key_not_exist, map_failure, Table, teid_map, ueip_map, nat_map, tx_port, Key, teid_key,
  address_key, ifindex_key, Context, opening, iterating, putting, deleting, looking_up, Error,
  not_ipv4_address, map_error, within_context,
}
use ebpf_packet_router.Maps.Types.{FwdRule}
use ebpf_packet_router.Maps.Tables.Interface.{EbpfMap}
use ebpf_packet_router.Maps.Tables.GoMap.{collect}

-- `if err != nil { return fmt.Errorf("…: %w", err) }`
abbrev pub failure : Context → Option MapError → Result Error (Unit {0})
failure c none = ok tt
failure c (some e) = err (within_context c (map_error e))

-- a key that is not there is no error
abbrev pub delete_failure : Context → Option MapError → Result Error (Unit {0})
delete_failure c none = ok tt
delete_failure c (some key_not_exist) = ok tt
delete_failure c (some (map_failure n)) = err (within_context c (map_error (map_failure n)))

-- nor is it for a lookup, which returns a nil rule
abbrev pub lookup_result {ℓ} : {V : Type ℓ} → Context → Result MapError V → Result Error (Option V)
lookup_result c (ok v) = ok (some v)
lookup_result c (err key_not_exist) = ok none
lookup_result c (err (map_failure n)) = err (within_context c (map_error (map_failure n)))

unfoldable pub ip_key : Ip → Result Error ℕ
ip_key ip = elim (to4 ip) [ none ↦ err (not_ipv4_address ip) | some ip4 ↦ ok (uint32_be ip4) ]

-- an address that is no IPv4 address stops a method before it reaches the map
abbrev pub at_address :
    {M : Type 0}
    → (ℕ → M → Result Error (Unit {0}) × M)
    → Result Error ℕ
    → M
    → Result Error (Unit {0}) × M
at_address op (err e) m = (err e, m)
at_address op (ok k) m = op k m

module _ (E : EbpfMap FwdRule) where
  open E use {Map, load_pinned, put, delete, lookup, iterate}

  unfoldable pub put_entry : Table → Key → ℕ → FwdRule → Map → Result Error (Unit {0}) × Map
  put_entry t key k rule m = let (e, m') = put k rule m in (failure (putting t key) e, m')

  unfoldable pub delete_entry : Table → Key → ℕ → Map → Result Error (Unit {0}) × Map
  delete_entry t key k m = let (e, m') = delete k m in (delete_failure (deleting t key) e, m')

  unfoldable pub get_entry : Table → Key → ℕ → Map → Result Error (Option FwdRule)
  get_entry t key k m = lookup_result (looking_up t key) (lookup k m)

  unfoldable pub list_entries : Table → Map → Result Error (List (ℕ × FwdRule))
  list_entries t m =
      let (entries, e) = iterate m in failure (iterating t) e >>= λ _. ok (collect [] entries)

  unfoldable pub open_teid_map : Map → Result Error (Unit {0})
  open_teid_map m = failure (opening teid_map) (load_pinned m)

  unfoldable pub teid_put : ℕ → FwdRule → Map → Result Error (Unit {0}) × Map
  unfolding put_entry
  teid_put teid rule m = put_entry teid_map (teid_key teid) teid rule m

  unfoldable pub teid_delete : ℕ → Map → Result Error (Unit {0}) × Map
  unfolding delete_entry
  teid_delete teid m = delete_entry teid_map (teid_key teid) teid m

  unfoldable pub teid_get : ℕ → Map → Result Error (Option FwdRule)
  unfolding get_entry
  teid_get teid m = get_entry teid_map (teid_key teid) teid m

  unfoldable pub teid_list : Map → Result Error (List (ℕ × FwdRule))
  unfolding list_entries
  teid_list m = list_entries teid_map m

  unfoldable pub open_ueip_map : Map → Result Error (Unit {0})
  open_ueip_map m = failure (opening ueip_map) (load_pinned m)

  unfoldable pub ueip_put : Ip → FwdRule → Map → Result Error (Unit {0}) × Map
  unfolding put_entry
  ueip_put ueip rule m =
      at_address (λ k. put_entry ueip_map (address_key ueip) k rule) (ip_key ueip) m

  unfoldable pub ueip_delete : Ip → Map → Result Error (Unit {0}) × Map
  unfolding delete_entry
  ueip_delete ueip m = at_address (delete_entry ueip_map (address_key ueip)) (ip_key ueip) m

  unfoldable pub ueip_get : Ip → Map → Result Error (Option FwdRule)
  unfolding get_entry
  ueip_get ueip m = do key ← ip_key ueip; get_entry ueip_map (address_key ueip) key m

  unfoldable pub ueip_list : Map → Result Error (List (ℕ × FwdRule))
  unfolding list_entries
  ueip_list m = list_entries ueip_map m

  unfoldable pub open_nat_map : Map → Result Error (Unit {0})
  open_nat_map m = failure (opening nat_map) (load_pinned m)

  unfoldable pub nat_put : Ip → FwdRule → Map → Result Error (Unit {0}) × Map
  unfolding put_entry
  nat_put nat_ip rule m =
      at_address (λ k. put_entry nat_map (address_key nat_ip) k rule) (ip_key nat_ip) m

  unfoldable pub nat_delete : Ip → Map → Result Error (Unit {0}) × Map
  unfolding delete_entry
  nat_delete nat_ip m = at_address (delete_entry nat_map (address_key nat_ip)) (ip_key nat_ip) m

  unfoldable pub nat_get : Ip → Map → Result Error (Option FwdRule)
  unfolding get_entry
  nat_get nat_ip m = do key ← ip_key nat_ip; get_entry nat_map (address_key nat_ip) key m

  unfoldable pub nat_list : Map → Result Error (List (ℕ × FwdRule))
  unfolding list_entries
  nat_list m = list_entries nat_map m

  -- what a table holds at a key
  abbrev pub view : Map → ℕ → Option FwdRule
  view m k = value? (lookup k m)

module _ (T : EbpfMap ℕ) where
  open T use {Map, load_pinned, put}

  unfoldable pub open_tx_port_map : Map → Result Error (Unit {0})
  open_tx_port_map m = failure (opening tx_port) (load_pinned m)

  -- `TxPortMap.Ensure`
  unfoldable pub ensure : ℕ → Map → Result Error (Unit {0}) × Map
  ensure ifindex m =
      let (e, m') = put ifindex ifindex m in (failure (putting tx_port (ifindex_key ifindex)) e, m')

  abbrev if_open : Result Error (Unit {0}) → ℕ → Map → Result Error (Unit {0}) × Map
  if_open (ok _) ifindex m = ensure ifindex m
  if_open (err e) ifindex m = (err e, m)

  unfoldable pub ensure_tx_port : ℕ → Map → Result Error (Unit {0}) × Map
  unfolding open_tx_port_map ensure
  ensure_tx_port ifindex m =
      if ifindex == 0 then (ok tt, m) else if_open (open_tx_port_map m) ifindex m
