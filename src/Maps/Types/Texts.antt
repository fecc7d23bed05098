-- ===== src/Maps/Types/Texts.antt =====
-- Texts of addresses and MACs are read back, and a byte count holds no white space.
use mathlib.Core.List.{cons-ne-nil}
use ebpf_packet_router.Prelude.{
  ℕ, ◌+◌, ◌*◌, ◌/◌, ◌%◌, ◌^◌, ◌<◌, ◌≤◌, ◌≡◌, ◌≢◌, refl, length, length-append, ap, [], ◌∷◌, ◌++◌,
  arith, some, ok, All, All-append, All-if, ◌==◌, leb,
}
use ebpf_packet_router.Std.Text.{Bytes, codes}
use ebpf_packet_router.Std.Text.Laws.{IsGraphic}
use ebpf_packet_router.Std.Number.{decimal, hex2}
use ebpf_packet_router.Std.Number.Laws.{decimal-IsGraphic, hex2-IsGraphic, length-decimal}
use ebpf_packet_router.Std.Float.{fixed2, fixed2-IsGraphic}
use ebpf_packet_router.Std.Binary.{uint32_be, uint32_be-put}
use ebpf_packet_router.Std.Address.{v4_in_v6, parse_ip, to4, ip_string}
use ebpf_packet_router.Std.Address.Laws.{parse_ip-ip_string}
use ebpf_packet_router.Std.Mac.Laws.{net_parse_mac-mac_text}
use ebpf_packet_router.Maps.Types.{
  Mac, action_string, ip_to_uint32, uint32_to_ip, parse_mac, mac_string, format_bytes,
}

abbrev octet : ℕ → ℕ → ℕ
octet n k = n / k % 256

-- The text of the address that Uint32ToIP makes of any number is read back by net.ParseIP as that
-- address, in its sixteen byte form.
pub parse_ip-ip_string-uint32_to_ip :
    (n : ℕ) → parse_ip (ip_string (uint32_to_ip n)) ≡ some (v4_in_v6 ++ uint32_to_ip n)
unfolding uint32_to_ip
parse_ip-ip_string-uint32_to_ip n =
    parse_ip-ip_string (octet n (2 ^ 24)) (octet n (2 ^ 16)) (octet n (2 ^ 8)) (n % 256)
      (omega arith) (omega arith) (omega arith) (omega arith)

pub ip_to_uint32-v4_in_v6 : (n : ℕ) → n < 2 ^ 32 → ip_to_uint32 (v4_in_v6 ++ uint32_to_ip n) ≡ ok n
unfolding ip_to_uint32 uint32_to_ip to4 uint32_be
ip_to_uint32-v4_in_v6 n h = ap ok (uint32_be-put n h)

-- The text of six bytes that MACString prints is read back by ParseMAC as those bytes.
pub parse_mac-mac_string :
    (a b c d e f : ℕ)
    → All (λ x. x < 256) (a ∷ b ∷ c ∷ d ∷ e ∷ f ∷ [])
    → parse_mac (mac_string (a ∷ b ∷ c ∷ d ∷ e ∷ f ∷ [])) ≡ ok (a ∷ b ∷ c ∷ d ∷ e ∷ f ∷ [])
unfolding parse_mac mac_string
parse_mac-mac_string a b c d e f h = rw (net_parse_mac-mac_text a b c d e f h, parse_mac)

pub action_string-IsGraphic : (a : ℕ) → All IsGraphic (action_string a)
unfolding action_string
action_string-IsGraphic a = All-if IsGraphic (a == 0) _ _ (omega arith) (
    All-if IsGraphic (a == 1) _ _ (omega arith) (
      All-if IsGraphic (a == 2) _ _ (omega arith) (
        All-if IsGraphic (a == 3) _ _ (omega arith) (
          All-append IsGraphic (codes "UNKNOWN(") _ (omega arith)
            (All-append IsGraphic (decimal a) _ (decimal-IsGraphic a) (omega arith))))))

pub mac_string-IsGraphic : (m : Mac) → All (λ x. x < 256) m → All IsGraphic (mac_string m)
unfolding mac_string
mac_string-IsGraphic [] h = tt
mac_string-IsGraphic (b ∷ []) (hb, _) = hex2-IsGraphic b hb
mac_string-IsGraphic (b ∷ c ∷ s) (hb, hs) =
    All-append IsGraphic _ _ (hex2-IsGraphic b hb) (omega arith, mac_string-IsGraphic (c ∷ s) hs)

-- A byte count has no space in it.
pub format_bytes-IsGraphic : (b : ℕ) → All IsGraphic (format_bytes b)
unfolding format_bytes
format_bytes-IsGraphic b =
    let unit = λ (k : ℕ) (u : Bytes) (h : All IsGraphic u).
      All-append IsGraphic (fixed2 b k) u (fixed2-IsGraphic b k) h in
    All-if IsGraphic (leb (2 ^ 30) b) _ _ (unit 30 (codes "GB") (omega arith)) (
      All-if IsGraphic (leb (2 ^ 20) b) _ _ (unit 20 (codes "MB") (omega arith)) (
        All-if IsGraphic (leb (2 ^ 10) b) _ _ (unit 10 (codes "KB") (omega arith))
          (All-append IsGraphic (decimal b) _ (decimal-IsGraphic b) (omega arith))))

dotted : (n : ℕ) (s : Bytes) → All IsGraphic s → All IsGraphic (decimal n ++ b'.' ∷ s)
dotted n s h = All-append IsGraphic (decimal n) _ (decimal-IsGraphic n) (omega arith, h)

pub ip_string-IsGraphic : (n : ℕ) → All IsGraphic (ip_string (uint32_to_ip n))
unfolding uint32_to_ip ip_string
ip_string-IsGraphic n = dotted _ _ (dotted _ _ (dotted _ _ (decimal-IsGraphic _)))

length-dotted :
    (n k : ℕ) (s : Bytes) → n < 256 → length s ≤ k → length (decimal n ++ b'.' ∷ s) ≤ 4 + k
length-dotted n k s h l =
    omega (arith, length-append (decimal n) (b'.' ∷ s), length-decimal 2 n (omega arith))

pub length-ip_string : (n : ℕ) → length (ip_string (uint32_to_ip n)) ≤ 15
unfolding uint32_to_ip ip_string
length-ip_string n = length-dotted _ 11 _ (omega arith) (
    length-dotted _ 7 _ (omega arith)
      (length-dotted _ 3 _ (omega arith) (length-decimal 2 (n % 256) (omega arith))))

decimal_front : (n : ℕ) (s : Bytes) → decimal n ++ b'.' ∷ s ≢ []
decimal_front n s h = omega (arith, length-append (decimal n) (b'.' ∷ s), ap length h)

pub ip_string-ne-nil : (n : ℕ) → ip_string (uint32_to_ip n) ≢ []
unfolding ip_string uint32_to_ip
ip_string-ne-nil n = decimal_front _ _

pub mac_string-ne-nil : (m : Mac) → m ≢ [] → mac_string m ≢ []
unfolding mac_string hex2
mac_string-ne-nil [] ne = absurd (ne refl)
mac_string-ne-nil (b ∷ []) ne = cons-ne-nil _ _
mac_string-ne-nil (b ∷ c ∷ s) ne = cons-ne-nil _ _

pub length-mac_string : (b : ℕ) (s : Mac) → length (mac_string (b ∷ s)) ≡ 2 + 3 * length s
unfolding mac_string hex2
length-mac_string b [] = refl
length-mac_string b (c ∷ s) = omega (arith, length-mac_string c s)
