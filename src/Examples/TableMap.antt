-- ===== src/Examples/TableMap.antt =====
-- A kernel map as a list of entries with a capacity, one value for what the model asks of
-- github.com/cilium/ebpf: `put` fails where a new entry has no room, and `load_pinned` where the map
-- is not pinned.
use ebpf_packet_router.Prelude.{
  ℕ, ◌≡◌, ◌≢◌, refl, Bool, true, false, List, [], ◌∷◌, Option, none, some, Option-cases, inl, inr,
  Result, ok, err, value?, arith, ==-ne, ◌==◌, ltb, length, All, Bool-cases, if◌then◌else◌,
}
use ebpf_packet_router.Errors.{MapError, key_not_exist, map_failure}
use ebpf_packet_router.Maps.Tables.GoMap.{find, assign, find-assign, HasKeysOnce}
use ebpf_packet_router.Maps.Tables.Interface.{EbpfMap}

pub record TableMap (V : Type 0) : Type 0 where
  pub entries : List (ℕ × V)
  pub capacity : ℕ
  pub pinned : Bool

module _ {V : Type 0} where
  abbrev without : ℕ → List (ℕ × V) → List (ℕ × V)
  without k [] = []
  without k ((j, v) ∷ l) = if j == k then without k l else (j, v) ∷ without k l

  abbrev first_of_each : List (ℕ × V) → List (ℕ × V)
  first_of_each [] = []
  first_of_each ((k, v) ∷ l) = (k, v) ∷ without k (first_of_each l)

  find-without :
      (k j : ℕ) (l : List (ℕ × V)) → find j (without k l) ≡ (if k == j then none else find j l)
  unfolding find
  find-without k j [] = ground arith
  find-without k j ((i, v) ∷ l) = elim (Bool-cases (i == k)) [
    | inl e ↦ rw e (ground (arith, find-without k j l))
    | inr e ↦ rw e (ground (arith, find-without k j l))
  ]

  All-without : (P : ℕ × V → Type 0) (k : ℕ) (l : List (ℕ × V)) → All P l → All P (without k l)
  All-without P k [] h = tt
  All-without P k ((j, v) ∷ l) (h, hl) = elim (Bool-cases (j == k)) [
    | inl e ↦ rw e (All-without P k l hl)
    | inr e ↦ rw e (h, All-without P k l hl)
  ]

  without_other : (k : ℕ) (l : List (ℕ × V)) → All (λ (e : ℕ × V). e.0 ≢ k) (without k l)
  without_other k [] = tt
  without_other k ((j, v) ∷ l) = elim (Bool-cases (j == k)) [
    | inl e ↦ rw e (without_other k l)
    | inr e ↦ rw e (==-ne e, without_other k l)
  ]

  without-HasKeysOnce : (k : ℕ) (l : List (ℕ × V)) → HasKeysOnce l → HasKeysOnce (without k l)
  without-HasKeysOnce k [] h = tt
  without-HasKeysOnce k ((j, v) ∷ l) (h, hl) = elim (Bool-cases (j == k)) [
    | inl e ↦ rw e (without-HasKeysOnce k l hl)
    | inr e ↦ rw e (All-without _ k l h, without-HasKeysOnce k l hl)
  ]

  pub first_of_each-HasKeysOnce : (l : List (ℕ × V)) → HasKeysOnce (first_of_each l)
  first_of_each-HasKeysOnce [] = tt
  first_of_each-HasKeysOnce ((k, v) ∷ l) = (
    without_other k (first_of_each l),
    without-HasKeysOnce k (first_of_each l) (first_of_each-HasKeysOnce l),
  )

  pub find-first_of_each : (k : ℕ) (l : List (ℕ × V)) → find k (first_of_each l) ≡ find k l
  unfolding find
  find-first_of_each k [] = refl
  find-first_of_each k ((j, v) ∷ l) =
      rw (find-without j k (first_of_each l), find-first_of_each k l) (ground arith)

  abbrev is_some : Option V → Bool
  is_some none = false
  is_some (some v) = true

  abbrev found : Option V → Result MapError V
  found none = err key_not_exist
  found (some v) = ok v

  pub value?-found : (o : Option V) → value? (found o) ≡ o
  value?-found none = refl
  value?-found (some v) = refl

  found-if :
      (b : Bool) (v : V) (o : Option V)
      → found (if b then some v else o) ≡ (if b then ok v else found o)
  found-if true v o = refl
  found-if false v o = refl

  found-if_absent :
      (b : Bool) (o : Option V)
      → found (if b then none else o) ≡ (if b then err key_not_exist else found o)
  found-if_absent true o = refl
  found-if_absent false o = refl

  abbrev put : ℕ → V → TableMap V → Option MapError × TableMap V
  put k v m =
      if is_some (find k m.entries)
      then (none, record m { entries = assign k v m.entries })
      else if ltb (length m.entries) m.capacity
      then (none, record m { entries = assign k v m.entries })
      else (some (map_failure 7), m)

  abbrev delete : ℕ → TableMap V → Option MapError × TableMap V
  delete k m =
      if is_some (find k m.entries)
      then (none, record m { entries = without k m.entries })
      else (some key_not_exist, m)

  pub put_failed :
      (k : ℕ) (v : V) (m : TableMap V) (e : MapError) → (put k v m).0 ≡ some e → (put k v m).1 ≡ m
  put_failed k v m e h = elim (Bool-cases (is_some (find k m.entries))) [
    | inl b ↦ let h' = (rw b at h) in cc
    | inr b ↦ elim (Bool-cases (ltb (length m.entries) m.capacity)) [
      | inl c ↦ let h' = (rw (b, c) at h) in cc
      | inr c ↦ rw (b, c)
    ]
  ]

  pub delete_failed :
      (k : ℕ) (m : TableMap V) (e : MapError) → (delete k m).0 ≡ some e → (delete k m).1 ≡ m
  delete_failed k m e h = elim (Bool-cases (is_some (find k m.entries))) [
    | inl b ↦ let h' = (rw b at h) in cc
    | inr b ↦ rw b
  ]

  pub lookup-put :
      (k j : ℕ) (v : V) (m : TableMap V)
      → (put k v m).0 ≡ none
      → found (find j (put k v m).1.entries) ≡ (if k == j then ok v else found (find j m.entries))
  lookup-put k j v m h = elim (Bool-cases (is_some (find k m.entries))) [
    | inl b ↦ rw (b, find-assign k j v m.entries) (found-if (k == j) v _)
    | inr b ↦ elim (Bool-cases (ltb (length m.entries) m.capacity)) [
      | inl c ↦ rw (b, c, find-assign k j v m.entries) (found-if (k == j) v _)
      | inr c ↦ let h' = (rw (b, c) at h) in cc
    ]
  ]

  pub lookup-delete :
      (k j : ℕ) (m : TableMap V)
      → (delete k m).0 ≡ none
      → found (find j (delete k m).1.entries)
        ≡ (if k == j then err key_not_exist else found (find j m.entries))
  lookup-delete k j m h = elim (Bool-cases (is_some (find k m.entries))) [
    | inl b ↦ rw (b, find-without k j m.entries) (found-if_absent (k == j) _)
    | inr b ↦ let h' = (rw b at h) in cc
  ]

  pub delete_absent :
      (k : ℕ) (m : TableMap V)
      → (delete k m).0 ≡ some key_not_exist
      → found (find k m.entries) ≡ err key_not_exist
  delete_absent k m h = elim (Option-cases (find k m.entries)) [
    | inl e ↦ rw e
    | inr (v, e) ↦ let h' = (rw e at h) in cc
  ]

abbrev pub table_maps : (V : Type 0) → EbpfMap V
table_maps V = record {
  Map = TableMap V;
  load_pinned = λ m. if m.pinned then none else some (map_failure 2);
  put = put;
  delete = delete;
  lookup = λ k m. found (find k m.entries);
  iterate = λ m. (first_of_each m.entries, none);
  put_failed = put_failed;
  delete_failed = delete_failed;
  lookup-put = lookup-put;
  lookup-delete = lookup-delete;
  delete_absent = delete_absent;
  iterate_once = λ m _. first_of_each-HasKeysOnce m.entries;
  iterate_all = λ m k _. rw (find-first_of_each k m.entries, value?-found (find k m.entries));
}
