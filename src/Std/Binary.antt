-- ===== src/Std/Binary.antt =====
-- Package encoding/binary: byte orders of two and four bytes.
use ebpf_packet_router.Prelude.{ℕ, ◌+◌, ◌*◌, ◌/◌, ◌%◌, ◌^◌, ◌<◌, ◌≡◌, List, [], ◌∷◌, get_or, arith}

-- binary.BigEndian.PutUint32 into a fresh slice, and binary.BigEndian.Uint32
unfoldable pub put_uint32_be : ℕ → List ℕ
put_uint32_be n = (n / 2 ^ 24 % 256) ∷ (n / 2 ^ 16 % 256) ∷ (n / 2 ^ 8 % 256) ∷ (n % 256) ∷ []

unfoldable pub uint32_be : List ℕ → ℕ
uint32_be b = get_or b 0 0 * 2 ^ 24 + get_or b 1 0 * 2 ^ 16 + get_or b 2 0 * 2 ^ 8 + get_or b 3 0

unfoldable pub put_uint16_be : ℕ → List ℕ
put_uint16_be n = (n / 256 % 256) ∷ (n % 256) ∷ []

unfoldable pub uint16_be : List ℕ → ℕ
uint16_be b = get_or b 0 0 * 256 + get_or b 1 0

unfoldable pub uint16_le : List ℕ → ℕ
uint16_le b = get_or b 1 0 * 256 + get_or b 0 0

pub uint32_be-put : (n : ℕ) → n < 2 ^ 32 → uint32_be (put_uint32_be n) ≡ n
unfolding uint32_be put_uint32_be
uint32_be-put n h = omega arith

pub put-uint32_be :
    (a b c d : ℕ)
    → a < 256
    → b < 256
    → c < 256
    → d < 256
    → put_uint32_be (uint32_be (a ∷ b ∷ c ∷ d ∷ [])) ≡ a ∷ b ∷ c ∷ d ∷ []
unfolding uint32_be put_uint32_be
put-uint32_be a b c d ha hb hc hd = ground arith
