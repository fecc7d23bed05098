-- ===== src/Cmd/Teid/Laws.antt =====
-- What `parseTEID` reads.
use mathlib.Core.List.{cons-ne-nil}
use ebpf_packet_router.Prelude.{
  false, ℕ, ◌-◌, ◌^◌, ◌≤◌, ◌<◌, ◌≡◌, ◌≢◌, refl, ◌||◌, [], ◌∷◌, ◌++◌, All, arith, drop, ok,
  Result-cases, inl, inr, Bool-cases,
}
use ebpf_packet_router.Std.Text.{Bytes, codes, has_prefix, trim_space}
use ebpf_packet_router.Std.Text.Laws.{IsGraphic, trim_space_graphic}
use ebpf_packet_router.Std.Number.{decimal, hex8}
use ebpf_packet_router.Std.Number.Laws.{
  IsDigit, decimal-IsDigit, decimal-ne-nil, hex8-IsGraphic, decimal-IsGraphic,
}
use ebpf_packet_router.Std.Strconv.Laws.{parse_uint-hex8, parse_uint-decimal, parse_uint_bound}
use ebpf_packet_router.Cmd.Teid.{parse_hex_or_decimal, parse_teid}

-- `fmt.Sprintf("0x%08X", teid)`
abbrev pub teid_text : ℕ → Bytes
teid_text teid = codes "0x" ++ hex8 teid

pub teid_text-IsGraphic : (teid : ℕ) → All IsGraphic (teid_text teid)
teid_text-IsGraphic teid = (omega arith, (omega arith, hex8-IsGraphic teid))

pub parse_hex_or_decimal-teid_text :
    (teid : ℕ) → teid < 2 ^ 32 → parse_hex_or_decimal (teid_text teid) ≡ ok teid
unfolding parse_hex_or_decimal
parse_hex_or_decimal-teid_text teid h = parse_uint-hex8 teid h

-- a text without white space is read as it is
parse_teid-graphic :
    (s : Bytes) {val : ℕ}
    → s ≢ []
    → All IsGraphic s
    → parse_hex_or_decimal s ≡ ok val
    → parse_teid s ≡ ok val
unfolding parse_teid
parse_teid-graphic [] ne h e = absurd (ne refl)
parse_teid-graphic (c ∷ s) ne h e = rw (trim_space_graphic (c ∷ s) h) (rw e)

-- The text 0x%08X of a 32-bit TEID, which the program prints, is read back as that TEID.
pub parse_teid-teid_text : (teid : ℕ) → teid < 2 ^ 32 → parse_teid (teid_text teid) ≡ ok teid
parse_teid-teid_text teid h =
    parse_teid-graphic (teid_text teid) (cons-ne-nil _ _) (teid_text-IsGraphic teid)
      (parse_hex_or_decimal-teid_text teid h)

parse_hex_or_decimal_bound :
    (s : Bytes) {val : ℕ} → parse_hex_or_decimal s ≡ ok val → val ≤ 2 ^ 32 - 1
unfolding parse_hex_or_decimal
parse_hex_or_decimal_bound s h =
    elim (Bool-cases (has_prefix s (codes "0x") || has_prefix s (codes "0X"))) [
      | inl hex ↦ parse_uint_bound (drop 2 s) 16 32 (rw hex at h)
      | inr dec ↦ parse_uint_bound s 10 32 (rw dec at h)
    ]

-- A TEID that parseTEID returns, for whatever text, is less than 2 ^ 32.
pub parse_teid_bound : (s : Bytes) {teid : ℕ} → parse_teid s ≡ ok teid → teid < 2 ^ 32
unfolding parse_teid
parse_teid_bound [] h = cc
parse_teid_bound (c ∷ s) h = elim (Result-cases (parse_hex_or_decimal (trim_space (c ∷ s)))) [
  | inl (val, e) ↦
      let h' = (rw e at h) in
      let bound = parse_hex_or_decimal_bound (trim_space (c ∷ s)) e in ground arith
  | inr (x, e) ↦ let h' = (rw e at h) in cc
]

digits_no_prefix :
    (s : Bytes) → All IsDigit s → has_prefix s (codes "0x") || has_prefix s (codes "0X") ≡ false
unfolding has_prefix
digits_no_prefix [] h = refl
digits_no_prefix (c ∷ []) h = ground arith
digits_no_prefix (c ∷ d ∷ s) (hc, (hd, _)) = ground arith

-- The decimal text of a 32-bit number is read as that number.
pub parse_teid-decimal : (n : ℕ) → n < 2 ^ 32 → parse_teid (decimal n) ≡ ok n
parse_teid-decimal n h = parse_teid-graphic (decimal n) (decimal-ne-nil n) (decimal-IsGraphic n) (
    unfold parse_hex_or_decimal in
    rw (digits_no_prefix (decimal n) (decimal-IsDigit n)) (parse_uint-decimal n 32 (omega arith)))
