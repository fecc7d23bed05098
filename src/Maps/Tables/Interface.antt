-- ===== src/Maps/Tables/Interface.antt =====
-- What the code relies on of github.com/cilium/ebpf: a map with values in V, as it is pinned in the
-- BPF file system. An operation returns its error, if any, and the map that it leaves.
use ebpf_packet_router.Prelude.{
  ℕ, ◌≡◌, List, Option, none, some, Result, ok, err, value?, ◌==◌, if◌then◌else◌,
}
use ebpf_packet_router.Errors.{MapError, key_not_exist}
use ebpf_packet_router.Maps.Tables.GoMap.{find, HasKeysOnce}

pub record EbpfMap (V : Type 0) : Type 1 where
  pub Map : Type 0
  -- `LoadPinnedMap`: the error, or none if the map was opened
  pub load_pinned : Map → Option MapError
  pub put : ℕ → V → Map → Option MapError × Map
  pub delete : ℕ → Map → Option MapError × Map
  pub lookup : ℕ → Map → Result MapError V
  -- `Iterate`: the entries that `Next` returned, and `Err`
  pub iterate : Map → List (ℕ × V) × Option MapError
  -- an operation that fails leaves the map alone
  pub put_failed :
      (k : ℕ) (v : V) (m : Map) (e : MapError) → (put k v m).0 ≡ some e → (put k v m).1 ≡ m
  pub delete_failed :
      (k : ℕ) (m : Map) (e : MapError) → (delete k m).0 ≡ some e → (delete k m).1 ≡ m
  -- one that succeeds changes the entry of its key, and no other
  pub lookup-put :
      (k j : ℕ) (v : V) (m : Map)
      → (put k v m).0 ≡ none
      → lookup j (put k v m).1 ≡ (if k == j then ok v else lookup j m)
  pub lookup-delete :
      (k j : ℕ) (m : Map)
      → (delete k m).0 ≡ none
      → lookup j (delete k m).1 ≡ (if k == j then err key_not_exist else lookup j m)
  -- `Delete` says that there is no such key only if there is none
  pub delete_absent :
      (k : ℕ) (m : Map) → (delete k m).0 ≡ some key_not_exist → lookup k m ≡ err key_not_exist
  -- a complete iteration meets each entry once
  pub iterate_once : (m : Map) → (iterate m).1 ≡ none → HasKeysOnce (iterate m).0
  pub iterate_all :
      (m : Map) (k : ℕ) → (iterate m).1 ≡ none → find k (iterate m).0 ≡ value? (lookup k m)
