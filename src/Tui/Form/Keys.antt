-- ===== src/Tui/Form/Keys.antt =====
-- The keys of ueip_map and nat_map as list and the dashboard print them, and as the sub-commands and
-- the form of the dashboard read them.
use ebpf_packet_router.Prelude.{ℕ, ◌^◌, ◌<◌, ◌≡◌, refl, ap, ok, some, false, ◌>>=◌, ◌++◌}
use ebpf_packet_router.Std.Address.{Ip, to4, ip_string, v4_in_v6}
use ebpf_packet_router.Std.Binary.{uint32_be-put}
use ebpf_packet_router.Errors.{Flag, ip_flag}
use ebpf_packet_router.Maps.Types.{uint32_to_ip}
use ebpf_packet_router.Maps.Types.Texts.{parse_ip-ip_string-uint32_to_ip, ip_to_uint32-v4_in_v6}
use ebpf_packet_router.Maps.Tables.Wrappers.{ip_key}
use ebpf_packet_router.Cmd.Flags.{ipv4_flag}
use ebpf_packet_router.Cmd.AddUeip.Rule.{parse_ueip}
use ebpf_packet_router.Cmd.Delete.{any_ip}
use ebpf_packet_router.Tui.TextInput.{TextInput}
use ebpf_packet_router.Tui.Form.{Form}
use ebpf_packet_router.Tui.Form.Texts.{ueip_target}
use ebpf_packet_router.Tui.Form.Build.{build_key}

module _ (n : ℕ) (narrow : n < 2 ^ 32) where
  -- the address that net.ParseIP reads from the text
  abbrev sixteen : Ip
  sixteen = v4_in_v6 ++ uint32_to_ip n

  to4-sixteen : to4 sixteen ≡ some (uint32_to_ip n)
  unfolding to4 uint32_to_ip
  to4-sixteen = refl

  ip_key-sixteen : ip_key sixteen ≡ ok n
  unfolding ip_key uint32_to_ip to4
  ip_key-sixteen = ap ok (uint32_be-put n narrow)

  any_ip-text : any_ip (ip_string (uint32_to_ip n)) ≡ ok sixteen
  unfolding any_ip uint32_to_ip
  any_ip-text = rw (parse_ip-ip_string-uint32_to_ip n, any_ip)

  parse_ueip-text : parse_ueip (ip_string (uint32_to_ip n)) ≡ ok sixteen
  unfolding parse_ueip uint32_to_ip
  parse_ueip-text = rw (parse_ip-ip_string-uint32_to_ip n, to4-sixteen, parse_ueip)

  ipv4_flag-text : (flag : Flag) → ipv4_flag flag (ip_string (uint32_to_ip n)) ≡ ok sixteen
  unfolding ipv4_flag uint32_to_ip
  ipv4_flag-text flag = rw (parse_ip-ip_string-uint32_to_ip n, to4-sixteen, ipv4_flag)

  -- The text that list and the dashboard print for a 32-bit key of ueip_map or nat_map leads back
  -- to that key wherever the program reads it: through the flag of del-ueip, that of add-ueip, the
  -- IPv4 flags of add-nat and del-nat, and the form, if it adds a rule of ueip_map and its key
  -- input has this text.
  pub keys-ip_string :
      (flag : Flag) (I : TextInput) (f : Form I)
      → f.editing ≡ false
      → f.target ≡ ueip_target
      → I.value f.key_input ≡ ip_string (uint32_to_ip n)
      → ((any_ip (ip_string (uint32_to_ip n)) >>= ip_key) ≡ ok n)
        × ((parse_ueip (ip_string (uint32_to_ip n)) >>= ip_key) ≡ ok n)
        × ((ipv4_flag flag (ip_string (uint32_to_ip n)) >>= ip_key) ≡ ok n)
        × (build_key I f ≡ ok n)
  unfolding build_key
  keys-ip_string flag I f added ueip shown = (
    rw any_ip-text ip_key-sixteen,
    rw parse_ueip-text ip_key-sixteen,
    rw (ipv4_flag-text flag) ip_key-sixteen,
    rw (added, ueip, shown, ipv4_flag-text ip_flag, ip_to_uint32-v4_in_v6 n narrow) refl,
  )
