-- ===== src/Maps/Types/Laws.antt =====
-- Actions and addresses as numbers.
use ebpf_packet_router.Prelude.{
  ℕ, ◌^◌, ◌≤◌, ◌<◌, ◌≡◌, ap, [], ◌∷◌, arith, ok, All, length, some, Option-cases, inl, inr, sym,
  ◌∙◌,
}
use ebpf_packet_router.Std.Text.{Bytes}
use ebpf_packet_router.Std.Address.{Ip, to4}
use ebpf_packet_router.Std.Address.Laws.{to4-bytes}
use ebpf_packet_router.Std.Binary.{put_uint32_be, uint32_be, uint32_be-put, put-uint32_be}
use ebpf_packet_router.Maps.Types.{parse_action, ip_to_uint32, uint32_to_ip}

pub parse_action-le-3 : (s : Bytes) {a : ℕ} → parse_action s ≡ ok a → a ≤ 3
unfolding parse_action
parse_action-le-3 s h = ground arith

-- IPToUint32 gives back a 32-bit number that Uint32ToIP has turned into an address.
pub ip_to_uint32-uint32_to_ip : (n : ℕ) → n < 2 ^ 32 → ip_to_uint32 (uint32_to_ip n) ≡ ok n
unfolding ip_to_uint32 uint32_to_ip to4 uint32_be
ip_to_uint32-uint32_to_ip n h = ap ok (uint32_be-put n h)

-- a text of four bytes
four_bytes : (ip : Ip) → All (λ x. x < 256) ip → length ip ≡ 4 → put_uint32_be (uint32_be ip) ≡ ip
four_bytes (a ∷ b ∷ c ∷ d ∷ []) (ha, (hb, (hc, (hd, _)))) e = put-uint32_be a b c d ha hb hc hd
four_bytes [] h e = absurd (omega (arith, e))
four_bytes (a ∷ []) h e = absurd (omega (arith, e))
four_bytes (a ∷ b ∷ []) h e = absurd (omega (arith, e))
four_bytes (a ∷ b ∷ c ∷ []) h e = absurd (omega (arith, e))
four_bytes (a ∷ b ∷ c ∷ d ∷ x ∷ s) h e = absurd (omega (arith, e))

-- If IPToUint32 turns an address into a number, whatever the length of the address, if it is made
-- of bytes, then the address is an IPv4 address, in either form, and Uint32ToIP makes its four
-- bytes of the number.
pub uint32_to_ip-ip_to_uint32 :
    (ip : Ip) {n : ℕ}
    → All (λ x. x < 256) ip
    → ip_to_uint32 ip ≡ ok n
    → to4 ip ≡ some (uint32_to_ip n)
unfolding ip_to_uint32 uint32_to_ip
uint32_to_ip-ip_to_uint32 ip {n} bytes e = elim (Option-cases (to4 ip)) [
  | inl absent ↦ let e' = (rw (ip_to_uint32, absent) at e) in cc
  | inr (v, found) ↦
      let e' = (rw (ip_to_uint32, found) at e) in
      let number : uint32_be v ≡ n = cc in
      let (vs, four) = to4-bytes (λ x. x < 256) ip bytes found in
      found ∙ rw (← number) (ap some (sym (four_bytes v vs four)))
]
