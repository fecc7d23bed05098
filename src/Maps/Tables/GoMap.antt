-- ===== src/Maps/Tables/GoMap.antt =====
-- Go's `map[uint32]V` as an association list with the assignment `m[k] = v`.
pub mod Keys
use ebpf_packet_router.Prelude.{
  ℕ, ◌≡◌, ◌≢◌, ◌∙◌, refl, List, [], ◌∷◌, Option, none, some, arith, ◌==◌, All, Bool-cases, inl, inr,
  ==_iff, ==-ne, sym, ◌↔◌, if◌then◌else◌,
}

module _ {V : Type 0} where
  -- the value of the first entry with the key
  unfoldable pub find : ℕ → List (ℕ × V) → Option V
  find k [] = none
  find k ((j, v) ∷ l) = if j == k then some v else find k l

  unfoldable pub assign : ℕ → V → List (ℕ × V) → List (ℕ × V)
  assign k v [] = (k, v) ∷ []
  assign k v ((j, w) ∷ l) = if j == k then (k, v) ∷ l else (j, w) ∷ assign k v l

  -- `for k := range m { keys = append(keys, k) }`, in some order
  unfoldable pub keys : List (ℕ × V) → List ℕ
  keys [] = []
  keys ((k, _) ∷ l) = k ∷ keys l

  abbrev pub HasKeysOnce : List (ℕ × V) → Type 0
  HasKeysOnce [] = Unit
  HasKeysOnce ((k, _) ∷ l) = All (λ (e : ℕ × V). e.0 ≢ k) l × HasKeysOnce l

  pub find-assign :
      (k j : ℕ) (v : V) (l : List (ℕ × V))
      → find j (assign k v l) ≡ (if k == j then some v else find j l)
  unfolding find assign
  find-assign k j v [] = refl
  find-assign k j v ((i, w) ∷ l) = ground (arith, find-assign k j v l)

  -- the loop `for iter.Next(&key, &rule) { out[key] = &r }`
  unfoldable pub collect : List (ℕ × V) → List (ℕ × V) → List (ℕ × V)
  collect out [] = out
  collect out ((k, v) ∷ l) = collect (assign k v out) l

  find_absent : (k : ℕ) (l : List (ℕ × V)) → All (λ (e : ℕ × V). e.0 ≢ k) l → find k l ≡ none
  unfolding find
  find_absent k [] h = refl
  find_absent k ((j, v) ∷ l) (hj, hl) = ground (arith, find_absent k l hl)

  abbrev or_else : Option V → Option V → Option V
  or_else none d = d
  or_else (some v) d = some v

  find-collect_or :
      (k : ℕ) (out l : List (ℕ × V))
      → HasKeysOnce l
      → find k (collect out l) ≡ or_else (find k l) (find k out)
  unfolding find collect
  find-collect_or k out [] h = refl
  find-collect_or k out ((j, v) ∷ l) (once, hl) =
      let absent : j ≡ k → find k l ≡ none = λ e. find_absent k l (rw (← e) once) in
      find-collect_or k (assign j v out) l hl ∙ ground (arith, find-assign j k v out)

  -- The collected map holds what the iteration met.
  pub find-collect : (k : ℕ) (l : List (ℕ × V)) → HasKeysOnce l → find k (collect [] l) ≡ find k l
  unfolding find
  find-collect k l h = find-collect_or k [] l h ∙ ground arith
