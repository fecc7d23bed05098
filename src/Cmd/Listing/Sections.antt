-- ===== src/Cmd/Listing/Sections.antt =====
-- What list.go prints of the three tables.
use mathlib.Core.List.{append_assoc}
use ebpf_packet_router.Prelude.{
  ℕ, suc, ◌≡◌, refl, ap, ◌∙◌, sym, List, [], ◌∷◌, ◌++◌, map, Option, ok, Result, err, on_bind,
  length, arith,
}
use ebpf_packet_router.Std.Text.{Bytes, codes}
use ebpf_packet_router.Std.Number.{decimal}
use ebpf_packet_router.Std.Sort.{sort_keys}
use ebpf_packet_router.Std.Sort.Laws.{length-sort_keys}
use ebpf_packet_router.Errors.{Error, Table, teid_map, ueip_map, nat_map}
use ebpf_packet_router.Maps.Types.{FwdRule}
use ebpf_packet_router.Maps.Tables.Interface.{EbpfMap}
use ebpf_packet_router.Maps.Tables.GoMap.{find, keys, HasKeysOnce}
use ebpf_packet_router.Maps.Tables.GoMap.Keys.{length-keys}
use ebpf_packet_router.Maps.Tables.Wrappers.{
  view, list_entries, open_teid_map, teid_list, open_ueip_map, ueip_list, open_nat_map, nat_list,
}
use ebpf_packet_router.Maps.Tables.Wrappers.Listing.{list_entries-view}
use ebpf_packet_router.Cmd.Exec.{Kernel}
use ebpf_packet_router.Cmd.Listing.{
  Line, rule_titles, nat_titles, underline, teid_row, ueip_row, nat_row, table_rows, section,
  list_rules,
}
use ebpf_packet_router.Cmd.Listing.Rows.{IsListed, sorted_rows-IsListed, list_entries-HasKeysOnce}

abbrev pub headline : Bytes → ℕ → Line
headline name count =
    (codes "=== " ++ name ++ codes " (" ++ decimal count ++ codes " entries) ===") ∷ []

-- the titles, and below them the rows of the keys; if there is no key, the mark of an empty table
abbrev pub body : Line → List ℕ → List Line → List Line
body titles [] rows = (codes "(empty)" ∷ []) ∷ []
body titles (k ∷ ks) rows = titles ∷ map underline titles ∷ rows

-- the lines of a section are the headline, with the number of rules, and the rows of the keys at
-- which the table holds a rule, in ascending order
pub record IsSection (name : Bytes) (titles : Line) (row : ℕ → FwdRule → Line)
    (table : ℕ → Option FwdRule) (lines : List Line) : Type 0 where
  pub ks : List ℕ
  pub rows : List Line
  pub listed : IsListed table row ks rows
  pub lines_are : lines ≡ headline name (length ks) ∷ body titles ks rows

empty_headline :
    (name : Bytes)
    → codes "=== " ++ name ++ codes " (0 entries) ==="
      ≡ codes "=== " ++ name ++ codes " (" ++ decimal 0 ++ codes " entries) ==="
unfolding decimal
empty_headline name = sym (
    ap (λ s. s ++ codes " entries) ===")
      (append_assoc (codes "=== " ++ name) (codes " (") (codes "0"))
    ∙ append_assoc (codes "=== " ++ name) (codes " (0") (codes " entries) ==="))

body-cons :
    (titles : Line) (ks : List ℕ) (rows : List Line) {n : ℕ}
    → length ks ≡ suc n
    → body titles ks rows ≡ titles ∷ map underline titles ∷ rows
body-cons titles [] rows e = absurd (omega (arith, e))
body-cons titles (k ∷ ks) rows e = refl

-- a Go map as its section prints it, where it has at each key what a table holds there
section-IsSection :
    (name : Bytes) (titles : Line) (row : ℕ → FwdRule → Line) (table : ℕ → Option FwdRule)
    (l : List (ℕ × FwdRule))
    → ((k : ℕ) → find k l ≡ table k)
    → HasKeysOnce l
    → IsSection name titles row table (section name titles row l)
unfolding section
section-IsSection name titles row table [] held once = record {
  ks = [];
  rows = [];
  listed =
      unfold sort_keys in
      unfold keys in unfold table_rows in sorted_rows-IsListed row [] table held once;
  lines_are = ap (λ h. (h ∷ []) ∷ (codes "(empty)" ∷ []) ∷ []) (empty_headline name);
}
section-IsSection name titles row table (entry ∷ l) held once =
    let count = length-sort_keys (keys (entry ∷ l)) ∙ length-keys (entry ∷ l) in
    record {
      ks = sort_keys (keys (entry ∷ l));
      rows = table_rows row (entry ∷ l) (sort_keys (keys (entry ∷ l)));
      listed = sorted_rows-IsListed row (entry ∷ l) table held once;
      lines_are =
          rw
            (
              count,
              body-cons titles (sort_keys (keys (entry ∷ l)))
                  (table_rows row (entry ∷ l) (sort_keys (keys (entry ∷ l)))) count,
            )
            refl;
    }

read_section :
    (E : EbpfMap FwdRule) (m : E.Map) (t : Table) {name : Bytes} {titles : Line}
    {row : ℕ → FwdRule → Line} {l : List (ℕ × FwdRule)}
    → list_entries E t m ≡ ok l
    → IsSection name titles row (view E m) (section name titles row l)
read_section E m t {name} {titles} {row} {l} e =
    section-IsSection name titles row (view E m) l (λ k. list_entries-view E m t k e)
      (list_entries-HasKeysOnce E m t e)

module _ {E : EbpfMap FwdRule} {T : EbpfMap ℕ} (clock : Table → ℕ → ℕ) (s : Kernel E T) where
  -- the sections of the three tables, with an empty line between them
  pub record IsListing (lines : List Line) : Type 0 where
    pub teids : List Line
    pub ueips : List Line
    pub nats : List Line
    pub teid_section :
        IsSection
          (codes "teid_map")
          (codes "TEID" ∷ rule_titles)
          (λ k. teid_row (clock teid_map k) k)
          (view E s.teid_table)
          teids
    pub ueip_section :
        IsSection
          (codes "ueip_map")
          (codes "UE-IP" ∷ rule_titles)
          (λ k. ueip_row (clock ueip_map k) k)
          (view E s.ueip_table)
          ueips
    pub nat_section : IsSection (codes "nat_map") nat_titles nat_row (view E s.nat_table) nats
    pub lines_are : lines ≡ teids ++ ([] ∷ []) ++ ueips ++ ([] ∷ []) ++ nats

  -- the error of one of the calls that open and read the tables
  pub data ReadFailure (e : Error) : Type 0 where
    teid_open : open_teid_map E s.teid_table ≡ err e → ReadFailure e
    teid_read : teid_list E s.teid_table ≡ err e → ReadFailure e
    ueip_open : open_ueip_map E s.ueip_table ≡ err e → ReadFailure e
    ueip_read : ueip_list E s.ueip_table ≡ err e → ReadFailure e
    nat_open : open_nat_map E s.nat_table ≡ err e → ReadFailure e
    nat_read : nat_list E s.nat_table ≡ err e → ReadFailure e

  abbrev pub ListOutcome : Result Error (List Line) → Type 0
  ListOutcome (ok lines) = IsListing lines
  ListOutcome (err e) = ReadFailure e

  -- If list succeeds, its lines are the sections of teid_map, ueip_map and nat_map, with an empty
  -- line between them: each has a headline with the number of rules that the table holds and,
  -- unless that is 0, the titles and a row for each key at which the table holds a rule, each once,
  -- in ascending order and for no other key. If it fails, its error is that of a call that opens or
  -- reads one of the three tables.
  pub list_rules-Outcome : ListOutcome (list_rules clock s)
  unfolding list_rules teid_list ueip_list nat_list
  list_rules-Outcome =
      on_bind ListOutcome (open_teid_map E s.teid_table) _
        (λ _ _.
          on_bind ListOutcome (teid_list E s.teid_table) _
            (λ teids t.
              on_bind ListOutcome (open_ueip_map E s.ueip_table) _
                (λ _ _.
                  on_bind ListOutcome (ueip_list E s.ueip_table) _
                    (λ ueips u.
                      on_bind ListOutcome (open_nat_map E s.nat_table) _
                        (λ _ _.
                          on_bind ListOutcome (nat_list E s.nat_table) _
                            (λ nats n. record {
                              teids = _;
                              ueips = _;
                              nats = _;
                              teid_section = read_section E s.teid_table teid_map t;
                              ueip_section = read_section E s.ueip_table ueip_map u;
                              nat_section = read_section E s.nat_table nat_map n;
                              lines_are = refl;
                            })
                            (λ e. nat_read))
                        (λ e. nat_open))
                    (λ e. ueip_read))
                (λ e. ueip_open))
            (λ e. teid_read))
        (λ e. teid_open)
