-- ===== src/Std/Sort/Laws.antt =====
-- The sorted keys ascend, and are the same keys.
use mathlib.Core.List.{Perm}
use mathlib.Core.List.Perm
use ebpf_packet_router.Prelude.{
  ℕ, suc, ◌<◌, ◌≡◌, ◌≢◌, refl, ap, ◌∙◌, length, List, [], ◌∷◌, arith, leb, All, Bool-cases, inl,
  inr,
}
use ebpf_packet_router.Std.Sort.{insert_key, sort_keys}

abbrev pub Ascending : List ℕ → Type 0
Ascending [] = Unit
Ascending (k ∷ s) = All (λ j. k < j) s × Ascending s

-- no key is there twice
abbrev pub Distinct : List ℕ → Type 0
Distinct [] = Unit
Distinct (k ∷ s) = All (λ j. j ≢ k) s × Distinct s

All-insert_key : (P : ℕ → Type 0) (k : ℕ) (s : List ℕ) → P k → All P s → All P (insert_key k s)
unfolding insert_key
All-insert_key P k [] h hs = (h, tt)
All-insert_key P k (j ∷ s) h (hj, hs) = elim (Bool-cases (leb k j)) [
  | inl e ↦ rw e (h, (hj, hs))
  | inr e ↦ rw e (hj, All-insert_key P k s h hs)
]

All-sort_keys : (P : ℕ → Type 0) (s : List ℕ) → All P s → All P (sort_keys s)
unfolding sort_keys
All-sort_keys P [] h = tt
All-sort_keys P (k ∷ s) (h, hs) = All-insert_key P k (sort_keys s) h (All-sort_keys P s hs)

All-lt : (k j : ℕ) (s : List ℕ) → k < j → All (λ i. j < i) s → All (λ i. k < i) s
All-lt k j [] h hs = tt
All-lt k j (i ∷ s) h (hi, hs) = (omega arith, All-lt k j s h hs)

insert_key-Ascending :
    (k : ℕ) (s : List ℕ) → All (λ j. j ≢ k) s → Ascending s → Ascending (insert_key k s)
unfolding insert_key
insert_key-Ascending k [] ne h = (tt, tt)
insert_key-Ascending k (j ∷ s) (ne, nes) (hj, hs) = elim (Bool-cases (leb k j)) [
  | inl e ↦ let lt : k < j = ground arith in rw e ((lt, All-lt k j s lt hj), (hj, hs))
  | inr e ↦
      rw e (All-insert_key (λ i. j < i) k s (ground arith) hj, insert_key-Ascending k s nes hs)
]

pub sort_keys-Ascending : (s : List ℕ) → Distinct s → Ascending (sort_keys s)
unfolding sort_keys
sort_keys-Ascending [] h = tt
sort_keys-Ascending (k ∷ s) (ne, h) =
    insert_key-Ascending k (sort_keys s) (All-sort_keys (λ j. j ≢ k) s ne) (sort_keys-Ascending s h)

insert_key-perm : (k : ℕ) (s : List ℕ) → Perm (insert_key k s) (k ∷ s)
unfolding insert_key
insert_key-perm k [] = Perm.refl (k ∷ [])
insert_key-perm k (j ∷ s) = elim (Bool-cases (leb k j)) [
  | inl e ↦ rw e (Perm.refl (k ∷ j ∷ s))
  | inr e ↦ rw e (Perm.trans (Perm.cons j (insert_key-perm k s)) (Perm.swap k j s))
]

pub sort_keys-perm : (s : List ℕ) → Perm (sort_keys s) s
unfolding sort_keys
sort_keys-perm [] = Perm.refl []
sort_keys-perm (k ∷ s) =
    Perm.trans (insert_key-perm k (sort_keys s)) (Perm.cons k (sort_keys-perm s))

length-insert_key : (k : ℕ) (s : List ℕ) → length (insert_key k s) ≡ suc (length s)
unfolding insert_key
length-insert_key k [] = refl
length-insert_key k (j ∷ s) = elim (Bool-cases (leb k j)) [
  | inl e ↦ rw e refl
  | inr e ↦ rw e (ap suc (length-insert_key k s))
]

pub length-sort_keys : (s : List ℕ) → length (sort_keys s) ≡ length s
unfolding sort_keys
length-sort_keys [] = refl
length-sort_keys (k ∷ s) = length-insert_key k (sort_keys s) ∙ ap suc (length-sort_keys s)
