-- ===== src/Std/Address/Laws.antt =====
-- The text of an IPv4 address is read back as that address.
use mathlib.Core.List.{append-nil, cons-ne-nil}
use ebpf_packet_router.Prelude.{
  ℕ, zero, suc, ◌+◌, ◌-◌, ◌*◌, ◌/◌, ◌%◌, ◌≤◌, ◌<◌, ◌≡◌, ◌∙◌, ◌≢◌, refl, sym, ap, All, List, [], ◌∷◌,
  ◌++◌, arith, some, dec_lt, lt→ltb, not_lt→ltb, length, take, drop, ◌==◌, ◌&&◌, ==_iff, Bool-cases,
  inl, inr,
}
use ebpf_packet_router.Std.Text.{Bytes, bytes_eq}
use ebpf_packet_router.Std.Number.{decimal}
use ebpf_packet_router.Std.Number.Laws.{IsDigit, decimal-IsDigit, decimal-ne-nil}
use ebpf_packet_router.Std.Address.{
  Ip, ipv4_fields, parse_ipv4, v4_in_v6, parse_addr, parse_ip, to4, parse_ip4, ip_string,
}

-- the digits of a byte
decimal_one : (n : ℕ) → n < 10 → decimal n ≡ (b'0' + n) ∷ []
unfolding decimal
decimal_one n h = rw (lt→ltb n 10 h)

decimal_two : (n : ℕ) → 10 ≤ n → n < 100 → decimal n ≡ (b'0' + n / 10) ∷ (b'0' + n % 10) ∷ []
unfolding decimal
decimal_two (suc n) lo hi =
    rw (not_lt→ltb (suc n) 10 (omega arith), lt→ltb (suc n / 10) 10 (omega arith))
decimal_two zero lo hi = absurd (omega arith)

decimal_three :
    (n : ℕ)
    → 100 ≤ n
    → n < 1000
    → decimal n ≡ (b'0' + n / 10 / 10) ∷ (b'0' + n / 10 % 10) ∷ (b'0' + n % 10) ∷ []
unfolding decimal
decimal_three (suc (suc n)) lo hi = rw (
  not_lt→ltb (suc (suc n)) 10 (omega arith),
  not_lt→ltb (suc (suc n) / 10) 10 (omega arith),
  lt→ltb (suc (suc n) / 10 / 10) 10 (omega arith),
)
decimal_three (suc zero) lo hi = absurd (omega arith)
decimal_three zero lo hi = absurd (omega arith)

field_digit :
    (d val n : ℕ) (s : Bytes) (done : List ℕ)
    → d < 10
    → (n ≡ 1 → val ≢ 0)
    → val * 10 + d ≤ 255
    → ipv4_fields ((b'0' + d) ∷ s) done val n ≡ ipv4_fields s done (val * 10 + d) (suc n)
unfolding ipv4_fields
field_digit d val n s done h lead fits =
    let e : b'0' + d - b'0' ≡ d = omega arith in
    let e' : n + 1 ≡ suc n = omega arith in rw (e, e') (ground arith)

field_dot :
    (c val n : ℕ) (s : Bytes) (done : List ℕ)
    → length done ≢ 3
    → ipv4_fields (b'.' ∷ c ∷ s) done val (suc n) ≡ ipv4_fields (c ∷ s) (done ++ val ∷ []) 0 0
unfolding ipv4_fields
field_dot c val n s done h = ground arith

-- the digits of a byte make a field of that value
field_decimal :
    (v : ℕ) (s : Bytes) (done : List ℕ)
    → v < 256
    → (n : ℕ) × (ipv4_fields (decimal v ++ s) done 0 0 ≡ ipv4_fields s done v (suc n))
field_decimal v s done h = elim (dec_lt v 10) [
  | yes one ↦ (
    0,
    rw (decimal_one v one) (
        field_digit v 0 0 s done one (λ e. absurd (omega arith)) (omega arith)
        ∙ ap (λ w. ipv4_fields s done w 1) (omega arith)),
  )
  | no more ↦ elim (dec_lt v 100) [
    | yes two ↦ (
      1,
      rw (decimal_two v (omega arith) two) (
          field_digit (v / 10) 0 0 ((b'0' + v % 10) ∷ s) done (omega arith)
            (λ e. absurd (omega arith)) (omega arith)
          ∙ field_digit (v % 10) (0 * 10 + v / 10) 1 s done (omega arith) (λ _. omega arith)
              (omega arith)
          ∙ ap (λ w. ipv4_fields s done w 2) (omega arith)),
    )
    | no three ↦ (
      2,
      rw (decimal_three v (omega arith) (omega arith)) (
          field_digit (v / 10 / 10) 0 0 ((b'0' + v / 10 % 10) ∷ (b'0' + v % 10) ∷ s) done
            (omega arith) (λ e. absurd (omega arith)) (omega arith)
          ∙ field_digit (v / 10 % 10) (0 * 10 + v / 10 / 10) 1 ((b'0' + v % 10) ∷ s) done
              (omega arith) (λ _. omega arith) (omega arith)
          ∙ field_digit (v % 10) ((0 * 10 + v / 10 / 10) * 10 + v / 10 % 10) 2 s done (omega arith)
              (λ e. absurd (omega arith)) (omega arith)
          ∙ ap (λ w. ipv4_fields s done w 3) (omega arith)),
    )
  ]
]

-- a field and the dot behind it
field_decimal_dot :
    (v : ℕ) (s : Bytes) (done : List ℕ)
    → v < 256
    → length done ≢ 3
    → s ≢ []
    → ipv4_fields (decimal v ++ b'.' ∷ s) done 0 0 ≡ ipv4_fields s (done ++ v ∷ []) 0 0
field_decimal_dot v [] done h l ne = absurd (ne refl)
field_decimal_dot v (c ∷ s) done h l ne =
    let (n, e) = field_decimal v (b'.' ∷ c ∷ s) done h in e ∙ field_dot c v n s done l

field_decimal_last :
    (v : ℕ) (done : List ℕ)
    → v < 256
    → length done ≡ 3
    → ipv4_fields (decimal v) done 0 0 ≡ some (done ++ v ∷ [])
unfolding ipv4_fields
field_decimal_last v done h l =
    let (n, e) = field_decimal v [] done h in
    ap (λ t. ipv4_fields t done 0 0) (sym (append-nil (decimal v))) ∙ e ∙ rw l

append-ne-nil : (s t : Bytes) → s ≢ [] → s ++ t ≢ []
append-ne-nil [] t h = absurd (h refl)
append-ne-nil (c ∷ s) t h = cons-ne-nil c (s ++ t)

decimal_append-ne-nil : (n : ℕ) (s : Bytes) → decimal n ++ s ≢ []
decimal_append-ne-nil n s = append-ne-nil (decimal n) s (decimal-ne-nil n)

-- the first separator is a dot
parse_addr_dot :
    (ip : Ip) (whole s t : Bytes)
    → parse_ipv4 whole ≡ some ip
    → All IsDigit s
    → parse_addr whole (s ++ b'.' ∷ t) ≡ some (v4_in_v6 ++ ip)
unfolding parse_addr
parse_addr_dot ip whole [] t e h = rw e
parse_addr_dot ip whole (x ∷ s) t e (hx, hs) = ground (arith, parse_addr_dot ip whole s t e hs)

module _ (a b c d : ℕ) (ha : a < 256) (hb : b < 256) (hc : c < 256) (hd : d < 256) where
  pub parse_ipv4-ip_string : parse_ipv4 (ip_string (a ∷ b ∷ c ∷ d ∷ [])) ≡ some (a ∷ b ∷ c ∷ d ∷ [])
  unfolding parse_ipv4 ip_string
  parse_ipv4-ip_string =
      field_decimal_dot a (decimal b ++ b'.' ∷ (decimal c ++ b'.' ∷ decimal d)) [] ha (omega arith)
        (decimal_append-ne-nil b _)
      ∙ field_decimal_dot b (decimal c ++ b'.' ∷ decimal d) (a ∷ []) hb (omega arith)
          (decimal_append-ne-nil c _)
      ∙ field_decimal_dot c (decimal d) (a ∷ b ∷ []) hc (omega arith) (decimal-ne-nil d)
      ∙ field_decimal_last d (a ∷ b ∷ c ∷ []) hd refl

  pub parse_ip-ip_string :
      parse_ip (ip_string (a ∷ b ∷ c ∷ d ∷ [])) ≡ some (v4_in_v6 ++ a ∷ b ∷ c ∷ d ∷ [])
  unfolding parse_ip ip_string
  parse_ip-ip_string =
      parse_addr_dot (a ∷ b ∷ c ∷ d ∷ []) (ip_string (a ∷ b ∷ c ∷ d ∷ [])) (decimal a)
        (decimal b ++ b'.' ∷ (decimal c ++ b'.' ∷ decimal d)) parse_ipv4-ip_string
        (decimal-IsDigit a)

  -- The text of an IPv4 address is read back as that address.
  pub parse_ip4-ip_string : parse_ip4 (ip_string (a ∷ b ∷ c ∷ d ∷ [])) ≡ some (a ∷ b ∷ c ∷ d ∷ [])
  unfolding to4
  parse_ip4-ip_string = rw (parse_ip-ip_string, parse_ip4)

module _ (P : ℕ → Type 0) where
  All-drop : (n : ℕ) (s : List ℕ) → All P s → All P (drop n s)
  All-drop zero s h = h
  All-drop (suc n) [] h = tt
  All-drop (suc n) (x ∷ s) (hx, hs) = All-drop n s hs

  length-drop : (n : ℕ) (s : List ℕ) → length (drop n s) ≡ length s - n
  length-drop zero s = omega arith
  length-drop (suc n) [] = omega arith
  length-drop (suc n) (x ∷ s) = omega (arith, length-drop n s)

  -- what To4 returns has four of the bytes of the address
  pub to4-bytes : (ip : Ip) {v : Ip} → All P ip → to4 ip ≡ some v → All P v × (length v ≡ 4)
  unfolding to4
  to4-bytes ip {v} h e = elim (Bool-cases (length ip == 4)) [
    | inl four ↦
        let e' = (rw four at e) in
        let got : ip ≡ v = cc in
        let count : length ip ≡ 4 = (==_iff _ _).0 four in rw (← got) (h, count)
    | inr other ↦ elim (Bool-cases (length ip == 16 && bytes_eq (take 12 ip) v4_in_v6)) [
      | inl mapped ↦
          let e' = (rw (other, mapped) at e) in
          let got : drop 12 ip ≡ v = cc in
          let count : length ip ≡ 16 = ground arith in
          rw (← got) (All-drop 12 ip h, omega (arith, length-drop 12 ip))
      | inr none_of ↦ let e' = (rw (other, none_of) at e) in cc
    ]
  ]
