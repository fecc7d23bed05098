-- ===== src/Std/Sort.antt =====
-- `sort.Slice(keys, func(i, j int) bool { return keys[i] < keys[j] })` on keys that differ: the
-- result, the one ascending arrangement of the keys, does not depend on the algorithm.
pub mod Laws
use ebpf_packet_router.Prelude.{ℕ, List, [], ◌∷◌, leb, if◌then◌else◌}

insert_key : ℕ → List ℕ → List ℕ
insert_key k [] = k ∷ []
insert_key k (j ∷ s) = if leb k j then k ∷ j ∷ s else j ∷ insert_key k s

unfoldable pub sort_keys : List ℕ → List ℕ
unfolding insert_key
sort_keys [] = []
sort_keys (k ∷ s) = insert_key k (sort_keys s)
