-- ===== src/Tui/Form/Reading.antt =====
-- The texts with which the form of a rule starts are kept by the inputs and read back by the form.
use mathlib.Core.List.{cons-ne-nil}
use ebpf_packet_router.Prelude.{
  ℕ, ◌^◌, ◌≤◌, ◌<◌, ◌≡◌, ◌≢◌, refl, sym, ap, ◌∙◌, [], ◌∷◌, arith, All, length, Bool-cases, inl, inr,
  ◌==◌, ==_iff, Result, ok, wrap,
}
use ebpf_packet_router.Std.Text.{Bytes, bytes_eq}
use ebpf_packet_router.Std.Text.Laws.{bytes_eq-eq, trim_space_graphic}
use ebpf_packet_router.Std.Number.{decimal, hex8}
use ebpf_packet_router.Std.Number.Laws.{decimal-IsGraphic, decimal-ne-nil, length-decimal}
use ebpf_packet_router.Std.Strconv.Laws.{parse_uint-decimal}
use ebpf_packet_router.Std.Address.{ip_string}
use ebpf_packet_router.Errors.{Error, Flag}
use ebpf_packet_router.Maps.Types.{Mac, zero_mac, parse_mac, mac_string, uint32_to_ip}
use ebpf_packet_router.Maps.Types.Texts.{
  parse_ip-ip_string-uint32_to_ip, ip_to_uint32-v4_in_v6, parse_mac-mac_string,
  mac_string-IsGraphic, mac_string-ne-nil, length-mac_string, ip_string-IsGraphic, length-ip_string,
  ip_string-ne-nil,
}
use ebpf_packet_router.Cmd.Teid.Laws.{
  teid_text, teid_text-IsGraphic, parse_hex_or_decimal-teid_text,
}
use ebpf_packet_router.Cmd.Flags.{optional, mac_flag}
use ebpf_packet_router.Tui.Form.Texts.{unless_zero, unless_zero_mac}
use ebpf_packet_router.Tui.Form.Build.{parse_hex_or_dec, address_field, number_field}
use ebpf_packet_router.Tui.Form.Values.{IsKept, IsKeptIf, or_text}

-- an optional value that is there
pub optional-some :
    {A : Type 0} (d : A) (parse : Bytes → Result Error A) (s : Bytes)
    → s ≢ []
    → optional d parse s ≡ parse s
optional-some d parse [] ne = absurd (ne refl)
optional-some d parse (c ∷ s) ne = refl

-- a number that is left out if it is 0, and read back if it is not
optional-unless_zero :
    (parse : Bytes → Result Error ℕ) (n : ℕ) (text : Bytes)
    → text ≢ []
    → parse text ≡ ok n
    → optional 0 parse (or_text (unless_zero n text) []) ≡ ok n
optional-unless_zero parse n text ne e = elim (Bool-cases (n == 0)) [
  | inl z ↦ let at : n ≡ 0 = (==_iff n 0).0 z in rw z (ap ok (sym at))
  | inr z ↦ rw z (optional-some 0 parse text ne ∙ e)
]

pub number_text :
    (flag : Flag) (n : ℕ)
    → n < 2 ^ 32
    → optional 0 (number_field flag 32) (or_text (unless_zero n (decimal n)) []) ≡ ok n
number_text flag n h =
    optional-unless_zero (number_field flag 32) n (decimal n) (decimal-ne-nil n)
      (unfold number_field in rw (parse_uint-decimal n 32 (omega arith)))

pub teid_text_value :
    (wrapped : Error → Error) (n : ℕ)
    → n < 2 ^ 32
    → optional 0 (λ v. wrap wrapped (parse_hex_or_dec v)) (or_text (unless_zero n (teid_text n)) [])
      ≡ ok n
teid_text_value wrapped n h =
    optional-unless_zero (λ v. wrap wrapped (parse_hex_or_dec v)) n (teid_text n) (cons-ne-nil _ _)
      (unfold parse_hex_or_dec in
        rw (trim_space_graphic (teid_text n) (teid_text-IsGraphic n))
          (rw (parse_hex_or_decimal-teid_text n h)))

pub address_text :
    (flag : Flag) (n : ℕ)
    → n < 2 ^ 32
    → optional 0 (address_field flag) (or_text (unless_zero n (ip_string (uint32_to_ip n))) [])
      ≡ ok n
unfolding address_field
address_text flag n h =
    optional-unless_zero (address_field flag) n (ip_string (uint32_to_ip n)) (ip_string-ne-nil n)
      (rw (parse_ip-ip_string-uint32_to_ip n, address_field) (rw (ip_to_uint32-v4_in_v6 n h)))

-- six bytes
pub record IsMac (m : Mac) : Type 0 where
  pub six : length m ≡ 6
  pub bytes : All (λ b. b < 256) m

parse_mac-six : (m : Mac) → length m ≡ 6 → All (λ b. b < 256) m → parse_mac (mac_string m) ≡ ok m
parse_mac-six (a ∷ b ∷ c ∷ d ∷ e ∷ f ∷ []) l h = parse_mac-mac_string a b c d e f h
parse_mac-six (a ∷ b ∷ c ∷ d ∷ e ∷ f ∷ g ∷ s) l h = absurd (omega arith)
parse_mac-six (a ∷ b ∷ c ∷ d ∷ e ∷ []) l h = absurd (omega arith)
parse_mac-six (a ∷ b ∷ c ∷ d ∷ []) l h = absurd (omega arith)
parse_mac-six (a ∷ b ∷ c ∷ []) l h = absurd (omega arith)
parse_mac-six (a ∷ b ∷ []) l h = absurd (omega arith)
parse_mac-six (a ∷ []) l h = absurd (omega arith)
parse_mac-six [] l h = absurd (omega arith)

pub mac_text_value :
    (flag : Flag) (m : Mac)
    → IsMac m
    → optional zero_mac (mac_flag flag) (or_text (unless_zero_mac m) []) ≡ ok m
mac_text_value flag m h = elim (Bool-cases (bytes_eq m zero_mac)) [
  | inl z ↦ let at : m ≡ zero_mac = bytes_eq-eq m zero_mac z in rw z (ap ok (sym at))
  | inr z ↦ rw z (
      optional-some zero_mac (mac_flag flag) (mac_string m)
        (mac_string-ne-nil m (λ e. omega (arith, ap length e, h.six)))
      ∙ (unfold mac_flag in rw (parse_mac-six m h.six h.bytes)))
]

-- the texts that the form starts with are kept by the inputs
pub decimal-IsKept : (n : ℕ) → n < 2 ^ 32 → IsKept (decimal n)
decimal-IsKept n h = (decimal-IsGraphic n, omega (arith, length-decimal 9 n (omega arith)))

pub teid_text-IsKept : (n : ℕ) → IsKept (teid_text n)
teid_text-IsKept n = (teid_text-IsGraphic n, unfold hex8 in omega arith)

pub ip_string-IsKept : (n : ℕ) → IsKept (ip_string (uint32_to_ip n))
ip_string-IsKept n = (ip_string-IsGraphic n, omega (arith, length-ip_string n))

mac_string-IsKept : (m : Mac) → IsMac m → IsKept (mac_string m)
mac_string-IsKept m h = (mac_string-IsGraphic m h.bytes, short m h.six)
  where
    short : (m : Mac) → length m ≡ 6 → length (mac_string m) ≤ 64
    short [] l = absurd (omega arith)
    short (b ∷ s) l = omega (arith, length-mac_string b s)

pub unless_zero_mac-IsKept : (m : Mac) → IsMac m → IsKeptIf (unless_zero_mac m)
unless_zero_mac-IsKept m h = elim (Bool-cases (bytes_eq m zero_mac)) [
  | inl z ↦ rw z tt
  | inr z ↦ rw z (mac_string-IsKept m h)
]

pub unless_zero-IsKept : (n : ℕ) (t : Bytes) → IsKept t → IsKeptIf (unless_zero n t)
unless_zero-IsKept n t h = elim (Bool-cases (n == 0)) [ inl z ↦ rw z tt | inr z ↦ rw z h ]
