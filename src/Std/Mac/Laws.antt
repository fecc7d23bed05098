-- ===== src/Std/Mac/Laws.antt =====
-- Six bytes in two lower case digits each, between colons, are read back as those bytes.
use ebpf_packet_router.Prelude.{
  ℕ, ◌/◌, ◌%◌, ◌<◌, ◌≡◌, refl, List, [], ◌∷◌, ◌++◌, arith, some, All, length,
}
use ebpf_packet_router.Std.Text.{Bytes}
use ebpf_packet_router.Std.Number.{hex_lower, hex2}
use ebpf_packet_router.Std.Strconv.Laws.{digit-hex_lower}
use ebpf_packet_router.Std.Mac.{hex_byte, mac_pairs, net_parse_mac}

-- `%02x` of each byte, between colons
abbrev pub mac_text : List ℕ → Bytes
mac_text [] = []
mac_text (b ∷ []) = hex2 b
mac_text (b ∷ c ∷ s) = hex2 b ++ b':' ∷ mac_text (c ∷ s)

hex_byte-hex2 : (b : ℕ) → b < 256 → hex_byte (hex_lower (b / 16)) (hex_lower (b % 16)) ≡ some b
unfolding hex_byte
hex_byte-hex2 b h =
    rw (digit-hex_lower (b / 16) (omega arith), hex_byte)
      (rw (digit-hex_lower (b % 16) (omega arith)) (ground arith))

mac_pairs-mac_text :
    (bs : List ℕ) → All (λ b. b < 256) bs → mac_pairs b':' (length bs) (mac_text bs) ≡ some bs
unfolding mac_pairs hex2
mac_pairs-mac_text [] h = refl
mac_pairs-mac_text (b ∷ []) (hb, _) = rw (hex_byte-hex2 b hb)
mac_pairs-mac_text (b ∷ c ∷ s) (hb, hs) =
    rw (hex_byte-hex2 b hb) (rw (mac_pairs-mac_text (c ∷ s) hs))

pub net_parse_mac-mac_text :
    (a b c d e f : ℕ)
    → All (λ x. x < 256) (a ∷ b ∷ c ∷ d ∷ e ∷ f ∷ [])
    → net_parse_mac (mac_text (a ∷ b ∷ c ∷ d ∷ e ∷ f ∷ [])) ≡ some (a ∷ b ∷ c ∷ d ∷ e ∷ f ∷ [])
unfolding net_parse_mac hex2
net_parse_mac-mac_text a b c d e f h = mac_pairs-mac_text (a ∷ b ∷ c ∷ d ∷ e ∷ f ∷ []) h
