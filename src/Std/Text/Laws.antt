-- ===== src/Std/Text/Laws.antt =====
-- Equality of texts, and texts that `TrimSpace` leaves alone.
use mathlib.Core.List.{reverse-cons, reverse-reverse}
use ebpf_packet_router.Prelude.{
  ℕ, ◌≤◌, ◌≡◌, refl, Bool, true, [], ◌∷◌, reverse, arith, All, All-append, within,
}
use ebpf_packet_router.Std.Text.{Bytes, bytes_eq, space_front, space_back, trim_from, trim_space}

pub bytes_eq_refl : (s : Bytes) → bytes_eq s s ≡ true
bytes_eq_refl [] = refl
bytes_eq_refl (c ∷ s) = ground (arith, bytes_eq_refl s)

pub bytes_eq-eq : (s t : Bytes) → bytes_eq s t ≡ true → s ≡ t
bytes_eq-eq [] [] h = refl
bytes_eq-eq [] (_ ∷ _) h = cc
bytes_eq-eq (_ ∷ _) [] h = cc
bytes_eq-eq (a ∷ s) (b ∷ t) h = ground (arith, bytes_eq-eq s t)

-- an ASCII byte that prints and is no space
abbrev pub IsGraphic : ℕ → Type 0
IsGraphic c = (33 ≤ c) × (c ≤ 126)

abbrev pub is_graphic : ℕ → Bool
is_graphic c = within 33 126 c

front_graphic : (c : ℕ) (s : Bytes) → IsGraphic c → space_front (c ∷ s) ≡ 0
unfolding space_front
front_graphic c s h = ground arith

back_graphic : (c : ℕ) (s : Bytes) → IsGraphic c → space_back (c ∷ s) ≡ 0
unfolding space_back
back_graphic c s h = ground arith

All-reverse : (s : Bytes) → All IsGraphic s → All IsGraphic (reverse s)
All-reverse [] h = tt
All-reverse (c ∷ s) (hc, hs) =
    rw reverse-cons (All-append IsGraphic (reverse s) (c ∷ []) (All-reverse s hs) (hc, tt))

trim_from_front : (s : Bytes) → All IsGraphic s → trim_from space_front 0 s ≡ s
unfolding trim_from
trim_from_front [] h = refl
trim_from_front (c ∷ s) (hc, _) = rw (front_graphic c s hc)

trim_from_back : (s : Bytes) → All IsGraphic s → trim_from space_back 0 s ≡ s
unfolding trim_from
trim_from_back [] h = refl
trim_from_back (c ∷ s) (hc, _) = rw (back_graphic c s hc)

pub trim_space_graphic : (s : Bytes) → All IsGraphic s → trim_space s ≡ s
unfolding trim_space
trim_space_graphic s h =
    rw (trim_from_front s h) (rw (trim_from_back (reverse s) (All-reverse s h)) (reverse-reverse s))
