-- ===== src/Cmd/Listing/Rows.antt =====
-- The rows of a table are its entries in ascending order, and the column of the quarantine says what
-- the XDP program does.
use mathlib.Core.List.{Mem}
use mathlib.Core.List.Perm
use ebpf_packet_router.Prelude.{
  ℕ, ◌≤◌, ◌<◌, ◌≡◌, ◌≢◌, ◌↔◌, refl, ap, ◌∙◌, true, List, [], ◌∷◌, Option, none, Option-cases, inl,
  inr, ok, All, arith,
}
use ebpf_packet_router.Std.Text.{codes, has_prefix}
use ebpf_packet_router.Std.Sort.{sort_keys}
use ebpf_packet_router.Std.Sort.Laws.{Ascending, sort_keys-Ascending, sort_keys-perm}
use ebpf_packet_router.Errors.{Table}
use ebpf_packet_router.Maps.Types.{FwdRule}
use ebpf_packet_router.Maps.Tables.Interface.{EbpfMap}
use ebpf_packet_router.Maps.Tables.GoMap.{find, keys, collect, HasKeysOnce}
use ebpf_packet_router.Maps.Tables.GoMap.Keys.{collect-HasKeysOnce, keys-Distinct, mem-keys}
use ebpf_packet_router.Maps.Tables.Wrappers.{list_entries}
use ebpf_packet_router.Policy.Windows.{run}
use ebpf_packet_router.Policy.Windows.Quarantine.{run_quarantined}
use ebpf_packet_router.Cmd.Listing.{Line, with_row, table_rows, quarantine_status}

-- the rows of the keys at which a table holds a rule
abbrev pub rows_of : (ℕ → FwdRule → Line) → (ℕ → Option FwdRule) → List ℕ → List Line
rows_of row table [] = []
rows_of row table (k ∷ ks) = with_row row k (table k) (rows_of row table ks)

table_rows-find :
    (row : ℕ → FwdRule → Line) (l : List (ℕ × FwdRule)) (table : ℕ → Option FwdRule) (ks : List ℕ)
    → ((k : ℕ) → find k l ≡ table k)
    → table_rows row l ks ≡ rows_of row table ks
unfolding table_rows
table_rows-find row l table [] h = refl
table_rows-find row l table (k ∷ ks) h =
    ap (λ o. with_row row k o (table_rows row l ks)) (h k)
    ∙ ap (with_row row k (table k)) (table_rows-find row l table ks h)

-- the keys are those at which a table holds a rule, in ascending order, and the rows are theirs
pub record IsListed (table : ℕ → Option FwdRule) (row : ℕ → FwdRule → Line) (ks : List ℕ)
    (rows : List Line) : Type 0 where
  pub ascending : Ascending ks
  pub complete : (k : ℕ) → Mem k ks ↔ (table k ≢ none)
  pub rows_are : rows ≡ rows_of row table ks

module _ (row : ℕ → FwdRule → Line) (l : List (ℕ × FwdRule)) (table : ℕ → Option FwdRule) where
  -- the rows of the sorted keys of a map that holds what the table holds
  pub sorted_rows-IsListed :
      ((k : ℕ) → find k l ≡ table k)
      → HasKeysOnce l
      → IsListed table row (sort_keys (keys l)) (table_rows row l (sort_keys (keys l)))
  sorted_rows-IsListed held once = record {
    ascending = sort_keys-Ascending (keys l) (keys-Distinct l once);
    complete = λ k.
        let (to, from) = mem-keys k l in
        let (unsort, resort) = Perm.mem_iff {a = k} (sort_keys-perm (keys l)) in
        (λ i. rw (held k) at (to (unsort i)), λ ne. resort (from (rw (← held k) at ne)));
    rows_are = table_rows-find row l table (sort_keys (keys l)) held;
  }

module _ (E : EbpfMap FwdRule) (m : E.Map) {l : List (ℕ × FwdRule)} where
  pub list_entries-HasKeysOnce : (t : Table) → list_entries E t m ≡ ok l → HasKeysOnce l
  unfolding list_entries
  list_entries-HasKeysOnce t h = elim (Option-cases (E.iterate m).1) [
    | inr (x, e) ↦ let h' = (rw e at h) in cc
    | inl e ↦
        let h' = (rw e at h) in
        let got : collect [] (E.iterate m).0 ≡ l = cc in
        rw (← got) (collect-HasKeysOnce [] (E.iterate m).0 tt)
  ]

-- the three things that the column says
pub quarantine_status-yes :
    (now : ℕ) (r : FwdRule)
    → has_prefix (quarantine_status now r) (codes "YES") ≡ true
    → (r.quarantine_until_ns ≢ 0) × (now < r.quarantine_until_ns)
unfolding quarantine_status has_prefix
quarantine_status-yes now r h = ground arith

All-lt :
    (now until : ℕ) (ts : List ℕ) → now < until → All (λ t. t ≤ now) ts → All (λ t. t < until) ts
All-lt now until [] lt h = tt
All-lt now until (t ∷ ts) lt (ht, hts) = (omega arith, All-lt now until ts lt hts)

-- If the listing says at some time that a rule is in quarantine, the XDP program lets none of any
-- packets up to that time through, and leaves the rule as it is.
pub run-quarantine_status :
    (now : ℕ) (r : FwdRule) (ts : List ℕ)
    → has_prefix (quarantine_status now r) (codes "YES") ≡ true
    → All (λ t. t ≤ now) ts
    → run r ts ≡ (r, 0)
run-quarantine_status now r ts h before =
    let (set, later) = quarantine_status-yes now r h in
    run_quarantined r ts set (All-lt now r.quarantine_until_ns ts later before)
