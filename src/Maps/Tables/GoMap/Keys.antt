-- ===== src/Maps/Tables/GoMap/Keys.antt =====
-- The keys of a map: which they are, and that each is there once.
use mathlib.Core.List.{Mem, mem-cons_self, mem-cons_of_mem, eq-or-mem_of_mem-cons, not-mem-nil}
use mathlib.Core.Logic.Or
use mathlib.Core.HLevel.{⊥_prop}
use ebpf_packet_router.Prelude.{
  ℕ, ◌≡◌, ◌≢◌, refl, sym, List, [], ◌∷◌, none, some, ◌==◌, All, Bool-cases, inl, inr, ==_iff, ==-ne,
  ◌↔◌, suc, ap, length,
}
use ebpf_packet_router.Std.Sort.Laws.{Distinct}
use ebpf_packet_router.Maps.Tables.GoMap.{find, assign, keys, collect, HasKeysOnce}

module _ {V : Type 0} where
  All-assign :
      (P : ℕ × V → Type 0) (k : ℕ) (v : V) (l : List (ℕ × V))
      → P (k, v)
      → All P l
      → All P (assign k v l)
  unfolding assign
  All-assign P k v [] h hl = (h, tt)
  All-assign P k v ((j, w) ∷ l) h (hj, hl) = elim (Bool-cases (j == k)) [
    | inl e ↦ rw e (h, hl)
    | inr e ↦ rw e (hj, All-assign P k v l h hl)
  ]

  assign-HasKeysOnce :
      (k : ℕ) (v : V) (l : List (ℕ × V)) → HasKeysOnce l → HasKeysOnce (assign k v l)
  unfolding assign
  assign-HasKeysOnce k v [] h = (tt, tt)
  assign-HasKeysOnce k v ((j, w) ∷ l) (h, hl) = elim (Bool-cases (j == k)) [
    | inl e ↦ let at : j ≡ k = (==_iff j k).0 e in rw e (rw at at h, hl)
    | inr e ↦ rw e (
      All-assign (λ (x : ℕ × V). x.0 ≢ j) k v l (λ c. ==-ne e (sym c)) h,
      assign-HasKeysOnce k v l hl,
    )
  ]

  -- A collected map has each key once.
  pub collect-HasKeysOnce : (out l : List (ℕ × V)) → HasKeysOnce out → HasKeysOnce (collect out l)
  unfolding collect
  collect-HasKeysOnce out [] h = h
  collect-HasKeysOnce out ((k, v) ∷ l) h =
      collect-HasKeysOnce (assign k v out) l (assign-HasKeysOnce k v out h)

  All-keys : (k : ℕ) (l : List (ℕ × V)) → All (λ (e : ℕ × V). e.0 ≢ k) l → All (λ j. j ≢ k) (keys l)
  unfolding keys
  All-keys k [] h = tt
  All-keys k ((j, v) ∷ l) (h, hl) = (h, All-keys k l hl)

  pub keys-Distinct : (l : List (ℕ × V)) → HasKeysOnce l → Distinct (keys l)
  unfolding keys
  keys-Distinct [] h = tt
  keys-Distinct ((k, v) ∷ l) (h, hl) = (All-keys k l h, keys-Distinct l hl)

  some-ne-none : (v : V) → some v ≢ none
  some-ne-none v h = cc

  -- The keys of a map are those at which it has a value.
  pub mem-keys : (k : ℕ) (l : List (ℕ × V)) → Mem k (keys l) ↔ (find k l ≢ none)
  unfolding keys find
  mem-keys k [] = (λ m. absurd (not-mem-nil m), λ ne. absurd (ne refl))
  mem-keys k ((j, v) ∷ l) = elim (Bool-cases (j == k)) [
    | inl e ↦
        let at : j ≡ k = (==_iff j k).0 e in rw (e, at) (λ _. some-ne-none v, λ _. mem-cons_self)
    | inr e ↦
        let other : j ≢ k = ==-ne e in
        rw e (
          λ m absent.
              Or.elim ⊥_prop (eq-or-mem_of_mem-cons m) (λ h. other (sym h))
                (λ m'. (mem-keys k l).0 m' absent),
          λ ne. mem-cons_of_mem j ((mem-keys k l).1 ne),
        )
  ]

  pub length-keys : (l : List (ℕ × V)) → length (keys l) ≡ length l
  unfolding keys
  length-keys [] = refl
  length-keys ((k, v) ∷ l) = ap suc (length-keys l)
