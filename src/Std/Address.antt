-- ===== src/Std/Address.antt =====
-- Package net on addresses: `ParseIP`, `IP.To4` and `IP.String` of an IPv4 address. A net.IP is
-- the list of its bytes, four or sixteen of them; a nil IP is `none`.
pub mod Laws
use ebpf_packet_router.Prelude.{
  ℕ, zero, suc, ◌+◌, ◌-◌, ◌*◌, ◌/◌, ◌%◌, Bool, true, false, not, ◌&&◌, ◌||◌, List, [], ◌∷◌, ◌++◌,
  Option, none, some, ◌==◌, ltb, within, length, take, drop, replicate, if◌then◌else◌,
}
use ebpf_packet_router.Std.Text.{Bytes, bytes_eq}
use ebpf_packet_router.Std.Number.{decimal}
use ebpf_packet_router.Std.Strconv.{digit}

abbrev pub Ip : Type 0
Ip = List ℕ

abbrev is_nil {ℓ} : {A : Type ℓ} → List A → Bool
is_nil [] = true
is_nil (_ ∷ _) = false

abbrev is_none {ℓ} : {A : Type ℓ} → Option A → Bool
is_none none = true
is_none (some _) = false

-- The fields read so far, the value of the field at hand, and how many digits it has. A field is
-- without a digit exactly at the start of the text and behind a dot.
unfoldable pub ipv4_fields : Bytes → List ℕ → ℕ → ℕ → Option Ip
ipv4_fields [] done val dig_len = if length done == 3 then some (done ++ val ∷ []) else none
ipv4_fields (c ∷ s) done val dig_len =
    let more = ipv4_fields s done (val * 10 + (c - b'0')) (dig_len + 1) in
    let next = ipv4_fields s (done ++ val ∷ []) 0 0 in
    if within b'0' b'9' c
    then (if dig_len == 1 && val == 0
        then none
        else if ltb 255 (val * 10 + (c - b'0'))
        then none
        else more)
    else if c == b'.'
    then (if dig_len == 0 || is_nil s then none else if length done == 3 then none else next)
    else none

unfoldable pub parse_ipv4 : Bytes → Option Ip
unfolding ipv4_fields
parse_ipv4 s = ipv4_fields s [] 0 0

abbrev hex_value : ℕ → Option ℕ
hex_value c = elim (digit c) [ none ↦ none | some d ↦ if ltb d 16 then some d else none ]

-- a group of at most four hexadecimal digits: their number, their value, and the rest of the text
hex_group : Bytes → ℕ → ℕ → Option (ℕ × ℕ × Bytes)
hex_group [] off acc = some (off, acc, [])
hex_group (c ∷ s) off acc = elim (hex_value c) [
  | none ↦ some (off, acc, c ∷ s)
  | some d ↦ if ltb 3 off then none else hex_group s (off + 1) (acc * 16 + d)
]

-- the loop's state: the text that is left, the bytes so far, and where the ellipsis stands
abbrev Groups : Type 0
Groups = Bytes × Ip × Option ℕ

-- a dotted IPv4 address in the last four bytes
ipv4_tail : Bytes → Ip → Option ℕ → Option Groups
ipv4_tail s ip ellipsis =
    if is_none ellipsis && not (length ip == 12)
    then none
    else if ltb 16 (length ip + 4)
    then none
    else elim (parse_ipv4 s) [ none ↦ none | some v4 ↦ some ([], ip ++ v4, ellipsis) ]

-- what follows a group of digits; `again` is the next round of the loop
after_group :
    (Bytes → Ip → Option ℕ → Option Groups) → Bytes → Bytes → Ip → Ip → Option ℕ → Option Groups
after_group again s [] ip ip' ellipsis = some ([], ip', ellipsis)
after_group again s (c ∷ []) ip ip' ellipsis = if c == b'.' then ipv4_tail s ip ellipsis else none
after_group again s (c ∷ d ∷ u) ip ip' ellipsis =
    if c == b'.'
    then ipv4_tail s ip ellipsis
    else if not (c == b':')
    then none
    else if not (d == b':')
    then again (d ∷ u) ip' ellipsis
    else if not (is_none ellipsis)
    then none
    else if is_nil u
    then some ([], ip', some (length ip'))
    else again u ip' (some (length ip'))

-- Each round reads two bytes or stops, and the loop runs while there are fewer than sixteen.
ipv6_groups : ℕ → Bytes → Ip → Option ℕ → Option Groups
ipv6_groups zero s ip ellipsis = some (s, ip, ellipsis)
ipv6_groups (suc rounds) s ip ellipsis = elim (hex_group s 0 0) [
  | none ↦ none
  | some (off, acc, rest) ↦
      if off == 0
      then none
      else after_group (ipv6_groups rounds) s rest ip (ip ++ (acc / 256) ∷ (acc % 256) ∷ [])
          ellipsis
]

-- the whole text must be used, and an ellipsis stands for at least one byte
ipv6_finish : Groups → Option Ip
ipv6_finish (s, ip, ellipsis) =
    if not (is_nil s)
    then none
    else if ltb (length ip) 16
    then elim ellipsis [
      | none ↦ none
      | some e ↦ some (take e ip ++ replicate (16 - length ip) 0 ++ drop e ip)
    ]
    else if is_none ellipsis
    then some ip
    else none

-- `ParseIP` refuses an address with a zone; so does this, since no digit or colon is a `%`.
unfoldable pub parse_ipv6 : Bytes → Option Ip
unfolding hex_group ipv4_tail after_group ipv6_groups ipv6_finish
parse_ipv6 s =
    let leading = bytes_eq (take 2 s) (b':' ∷ b':' ∷ []) in
    if leading && is_nil (drop 2 s)
    then some (replicate 16 0)
    else elim (if leading then ipv6_groups 8 (drop 2 s) [] (some 0) else ipv6_groups 8 s [] none) [
      | none ↦ none
      | some g ↦ ipv6_finish g
    ]

-- IPv4 addresses are stored in sixteen bytes, as ::ffff:a.b.c.d.
abbrev pub v4_in_v6 : List ℕ
v4_in_v6 = 0 ∷ 0 ∷ 0 ∷ 0 ∷ 0 ∷ 0 ∷ 0 ∷ 0 ∷ 0 ∷ 0 ∷ 255 ∷ 255 ∷ []

-- the first dot or colon decides how the text is read
parse_addr : Bytes → Bytes → Option Ip
parse_addr whole [] = none
parse_addr whole (c ∷ s) =
    let later = parse_addr whole s in
    if c == b'.'
    then elim (parse_ipv4 whole) [ none ↦ none | some ip ↦ some (v4_in_v6 ++ ip) ]
    else if c == b':'
    then parse_ipv6 whole
    else if c == b'%'
    then none
    else later

unfoldable pub parse_ip : Bytes → Option Ip
unfolding parse_addr
parse_ip s = parse_addr s s

unfoldable pub to4 : Ip → Option Ip
to4 ip =
    if length ip == 4
    then some ip
    else if length ip == 16 && bytes_eq (take 12 ip) v4_in_v6
    then some (drop 12 ip)
    else none

-- `ip == nil || ip.To4() == nil` is the test of the commands that want IPv4
abbrev pub parse_ip4 : Bytes → Option Ip
parse_ip4 s = elim (parse_ip s) [ none ↦ none | some ip ↦ to4 ip ]

unfoldable pub ip_string : Ip → Bytes
ip_string [] = []
ip_string (a ∷ []) = decimal a
ip_string (a ∷ b ∷ s) = decimal a ++ b'.' ∷ ip_string (b ∷ s)
