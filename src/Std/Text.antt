-- ===== src/Std/Text.antt =====
-- Go's `string` as the list of its bytes: `==`, `strings.HasPrefix` and `strings.TrimSpace`.
pub mod Laws
use Prim.Native.Char.{code}
use Prim.Native.String.{String}
use ebpf_packet_router.Prelude.{
  ℕ, zero, suc, ◌-◌, ◌/◌, ◌%◌, ◌+◌, Bool, true, false, ◌&&◌, ◌||◌, List, [], ◌∷◌, reverse, within,
  ◌==◌, get_or, if◌then◌else◌,
}

abbrev pub Bytes : Type 0
Bytes = List ℕ

abbrev pub newline : Bytes
newline = 10 ∷ []

-- the bytes of an ASCII literal
abbrev pub codes : String → Bytes
codes String.[] = []
codes (String.◌∷◌ c s) = code c ∷ codes s

abbrev pub bytes_eq : Bytes → Bytes → Bool
bytes_eq [] [] = true
bytes_eq [] (_ ∷ _) = false
bytes_eq (_ ∷ _) [] = false
bytes_eq (a ∷ s) (b ∷ t) = a == b && bytes_eq s t

unfoldable pub has_prefix : Bytes → Bytes → Bool
has_prefix _ [] = true
has_prefix [] (_ ∷ _) = false
has_prefix (c ∷ s) (p ∷ ps) = c == p && has_prefix s ps

abbrev pub is_ascii_space : ℕ → Bool
is_ascii_space c = within 9 13 c || c == 32

-- `unicode.IsSpace` on a rune of two or three bytes: U+0085, U+00A0, U+1680, U+2000 to U+200A,
-- U+2028, U+2029, U+202F, U+205F and U+3000
abbrev pub is_space2 : ℕ → ℕ → Bool
is_space2 a b = a == 0xC2 && (b == 0x85 || b == 0xA0)

abbrev pub is_space3 : ℕ → ℕ → ℕ → Bool
is_space3 a b c =
    a == 0xE1 && (b == 0x9A && c == 0x80)
    || (a == 0xE2 && (b == 0x80 && (within 0x80 0x8A c || (within 0xA8 0xA9 c || c == 0xAF)))
        || (a == 0xE2 && (b == 0x81 && c == 0x9F) || a == 0xE3 && (b == 0x80 && c == 0x80)))

-- how many bytes the white space rune at the front has, 0 if there is none
unfoldable pub space_front : Bytes → ℕ
space_front [] = 0
space_front (a ∷ s) =
    if is_ascii_space a
    then 1
    else if is_space2 a (get_or s 0 0)
    then 2
    else if is_space3 a (get_or s 0 0) (get_or s 1 0)
    then 3
    else 0

-- the same at the end of a text that is given backwards
unfoldable pub space_back : Bytes → ℕ
space_back [] = 0
space_back (z ∷ s) =
    if is_ascii_space z
    then 1
    else if is_space2 (get_or s 0 0) z
    then 2
    else if is_space3 (get_or s 1 0) (get_or s 0 0) z
    then 3
    else 0

-- drops the first `skip` bytes, and then white space runes as long as there are any
unfoldable pub trim_from : (Bytes → ℕ) → ℕ → Bytes → Bytes
trim_from space skip [] = []
trim_from space (suc skip) (c ∷ s) = trim_from space skip s
trim_from space zero (c ∷ s) =
    let n = space (c ∷ s) in let rest = trim_from space (n - 1) s in if n == 0 then c ∷ s else rest

unfoldable pub trim_space : Bytes → Bytes
unfolding space_front space_back trim_from
trim_space s = reverse (trim_from space_back 0 (reverse (trim_from space_front 0 s)))
