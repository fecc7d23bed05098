-- ===== src/Cmd/Flags.antt =====
-- How the sub-commands that add a rule, and the dashboard's form, read the values that name an
-- interface, a MAC, an address or a port: the blocks `if addTeidDMac != "" { … }` of add_teid.go,
-- add_ueip.go and add_nat.go.
use ebpf_packet_router.Prelude.{
  ℕ, ◌%◌, ◌^◌, List, [], ◌∷◌, Option, none, some, Result, ok, err, wrap, ◌==◌, if◌then◌else◌,
}
use ebpf_packet_router.Std.Text.{Bytes, bytes_eq}
use ebpf_packet_router.Std.Address.{Ip, parse_ip, to4, ip_string}
use ebpf_packet_router.Std.Binary.{put_uint16_be, uint16_le}
use ebpf_packet_router.Errors.{
  Error, Flag, parsing, egress_interface, no_such_interface, invalid_address, within_context,
}
use ebpf_packet_router.Maps.Types.{Mac, ip_to_uint32, parse_mac}

-- the network interfaces of the host, by name, with their indexes
abbrev pub Interfaces : Type 0
Interfaces = List (Bytes × ℕ)

-- `net.InterfaceByName`
unfoldable pub interface_by_name : Interfaces → Bytes → Option ℕ
interface_by_name [] name = none
interface_by_name ((n, index) ∷ rest) name =
    if bytes_eq n name then some index else interface_by_name rest name

-- `if value != "" { … }`
abbrev pub optional {ℓ} : {A : Type ℓ} → A → (Bytes → Result Error A) → Bytes → Result Error A
optional d parse [] = ok d
optional d parse (c ∷ s) = parse (c ∷ s)

-- `uint32(iface.Index)`
unfoldable pub egress_ifindex : Interfaces → Bytes → Result Error ℕ
unfolding interface_by_name
egress_ifindex ifaces name = elim (interface_by_name ifaces name) [
  | none ↦ err (within_context (egress_interface name) (no_such_interface name))
  | some index ↦ ok (index % 2 ^ 32)
]

unfoldable pub mac_flag : Flag → Bytes → Result Error Mac
mac_flag flag s = wrap (within_context (parsing flag)) (parse_mac s)

unfoldable pub address_flag : Flag → Bytes → Result Error ℕ
address_flag flag s = elim (parse_ip s) [
  | none ↦ err (invalid_address flag s)
  | some ip ↦ ip_to_uint32 ip
]

-- a port in network byte order, as a little-endian machine stores it
unfoldable pub network_port : ℕ → ℕ
network_port port = if port == 0 then 0 else uint16_le (put_uint16_be port)

-- `if ip == nil || ip.To4() == nil { return fmt.Errorf("invalid …") }`
unfoldable pub ipv4_flag : Flag → Bytes → Result Error Ip
ipv4_flag flag s = elim (parse_ip s) [
  | none ↦ err (invalid_address flag s)
  | some ip ↦ elim (to4 ip) [ none ↦ err (invalid_address flag s) | some _ ↦ ok ip ]
]

-- `%s` of an address in its sixteen byte form that is an IPv4 address
abbrev pub ipv4_text : Ip → Bytes
ipv4_text ip = elim (to4 ip) [ none ↦ [] | some ip4 ↦ ip_string ip4 ]
