-- ===== src/Std/Mac.antt =====
-- `net.ParseMAC`: groups of two digits between colons or dashes, or of four between dots.
pub mod Laws
use ebpf_packet_router.Prelude.{
  ℕ, zero, suc, ◌+◌, ◌*◌, ◌/◌, ◌%◌, Bool, not, ◌&&◌, ◌||◌, List, [], ◌∷◌, Option, none, some, ◌==◌,
  ltb, length, get_or, if◌then◌else◌,
}
use ebpf_packet_router.Std.Text.{Bytes}
use ebpf_packet_router.Std.Strconv.{digit}

-- two hexadecimal digits
hex_byte : ℕ → ℕ → Option ℕ
unfolding digit
hex_byte a b = elim (digit a) [
  | none ↦ none
  | some x ↦ elim (digit b) [
    | none ↦ none
    | some y ↦ if ltb x 16 && ltb y 16 then some (x * 16 + y) else none
  ]
]

abbrev cons? : Option ℕ → Option (List ℕ) → Option (List ℕ)
cons? none _ = none
cons? (some b) none = none
cons? (some b) (some bs) = some (b ∷ bs)

mac_pairs : ℕ → ℕ → Bytes → Option (List ℕ)
mac_pairs sep zero s = some []
mac_pairs sep (suc n) [] = none
mac_pairs sep (suc n) (a ∷ []) = none
mac_pairs sep (suc n) (a ∷ b ∷ []) = cons? (hex_byte a b) (mac_pairs sep n [])
mac_pairs sep (suc n) (a ∷ b ∷ c ∷ s) =
    if c == sep then cons? (hex_byte a b) (mac_pairs sep n s) else none

mac_quads : ℕ → Bytes → Option (List ℕ)
mac_quads zero s = some []
mac_quads (suc n) (a ∷ b ∷ c ∷ d ∷ []) =
    cons? (hex_byte a b) (cons? (hex_byte c d) (mac_quads n []))
mac_quads (suc n) (a ∷ b ∷ c ∷ d ∷ e ∷ s) =
    if e == b'.' then cons? (hex_byte a b) (cons? (hex_byte c d) (mac_quads n s)) else none
mac_quads (suc n) _ = none

abbrev is_mac_length : ℕ → Bool
is_mac_length n = n == 6 || (n == 8 || n == 20)

unfoldable pub net_parse_mac : Bytes → Option (List ℕ)
unfolding hex_byte mac_pairs mac_quads
net_parse_mac s =
    if ltb (length s) 14
    then none
    else if get_or s 2 0 == b':' || get_or s 2 0 == b'-'
    then (if not ((length s + 1) % 3 == 0)
        then none
        else if is_mac_length ((length s + 1) / 3)
        then mac_pairs (get_or s 2 0) ((length s + 1) / 3) s
        else none)
    else if get_or s 4 0 == b'.'
    then (if not ((length s + 1) % 5 == 0)
        then none
        else if is_mac_length (2 * (length s + 1) / 5)
        then mac_quads ((length s + 1) / 5) s
        else none)
    else none
