-- ===== src/Tui/Dashboard/Rows/Policed.antt =====
-- The rows of buildRows and enforcementRows, and the rules that they stand for.
use mathlib.Core.List.{
  Mem, Mem-prop, mem_of_ne_of_mem, mem-cons_self, mem-cons_of_mem, eq-or-mem_of_mem-cons,
  not-mem-nil,
}
use mathlib.Core.List.Perm
use mathlib.Core.Logic.Or
use mathlib.Core.HLevel.{⊥_prop}
use ebpf_packet_router.Prelude.{
  ℕ, ◌<◌, ◌≡◌, ◌≢◌, ◌∙◌, refl, ap, List, [], ◌∷◌, ◌++◌, Option, none, some, Option-cases, inl, inr,
  All, Bool-cases, Bool, if◌then◌else◌,
}
use ebpf_packet_router.Std.Text.{Bytes}
use ebpf_packet_router.Std.Sort.{sort_keys}
use ebpf_packet_router.Std.Sort.Laws.{Ascending, sort_keys-Ascending, sort_keys-perm}
use ebpf_packet_router.Std.Float64.{Float64}
use ebpf_packet_router.Errors.{Table, teid_map, ueip_map}
use ebpf_packet_router.Maps.Types.{FwdRule}
use ebpf_packet_router.Maps.Clock.{Timespec, monotonic_now_ns}
use ebpf_packet_router.Maps.Tables.GoMap.{find, keys, HasKeysOnce}
use ebpf_packet_router.Maps.Tables.GoMap.Keys.{keys-Distinct, mem-keys}
use ebpf_packet_router.Cmd.Listing.{Line}
use ebpf_packet_router.Cmd.Listing.Rows.{IsListed, rows_of, sorted_rows-IsListed}
use ebpf_packet_router.Tui.Dashboard.Rows.{
  format_teid, format_ueip, rule_row, build_rows, enforcement_row, has_no_policy, with_policy,
  collect_rows, enforcement_rows,
}

-- a rule with a cap or a threshold
abbrev pub policed : Option FwdRule → Option FwdRule
policed none = none
policed (some r) = if has_no_policy r then none else some r

abbrev keep : Option FwdRule → ℕ → List ℕ → List ℕ
keep none k ks = ks
keep (some r) k ks = k ∷ ks

some_not_none : (o : Option FwdRule) (r : FwdRule) → o ≡ some r → o ≢ none
some_not_none o r e n = cc

with_policy-none :
    (row : ℕ → FwdRule → Line) (k : ℕ) (o : Option FwdRule) (rows : List Line)
    → policed o ≡ none
    → with_policy row k o rows ≡ rows
with_policy-none row k none rows e = refl
with_policy-none row k (some r) rows e = elim (Bool-cases (has_no_policy r)) [
  | inl b ↦ rw b
  | inr b ↦ let e' = (rw b at e) in cc
]

with_policy-some :
    (row : ℕ → FwdRule → Line) (k : ℕ) (o : Option FwdRule) (r : FwdRule) (rows : List Line)
    → policed o ≡ some r
    → with_policy row k o rows ≡ row k r ∷ rows
with_policy-some row k none r rows e = cc
with_policy-some row k (some q) r rows e = elim (Bool-cases (has_no_policy q)) [
  | inl b ↦ let e' = (rw b at e) in cc
  | inr b ↦ let e' : some q ≡ some r = (rw b at e) in rw b (cc)
]

module _ (l : List (ℕ × FwdRule)) where
  -- those of the keys whose rule is under policy
  policed_keys : List ℕ → List ℕ
  policed_keys [] = []
  policed_keys (k ∷ ks) = keep (policed (find k l)) k (policed_keys ks)

  All-policed_keys : (P : ℕ → Type 0) (ks : List ℕ) → All P ks → All P (policed_keys ks)
  unfolding policed_keys
  All-policed_keys P [] h = tt
  All-policed_keys P (k ∷ ks) (h, hs) = elim (Option-cases (policed (find k l))) [
    | inl e ↦ rw e (All-policed_keys P ks hs)
    | inr (r, e) ↦ rw e (h, All-policed_keys P ks hs)
  ]

  policed_keys-Ascending : (ks : List ℕ) → Ascending ks → Ascending (policed_keys ks)
  unfolding policed_keys
  policed_keys-Ascending [] h = tt
  policed_keys-Ascending (k ∷ ks) (h, hs) = elim (Option-cases (policed (find k l))) [
    | inl e ↦ rw e (policed_keys-Ascending ks hs)
    | inr (r, e) ↦ rw e (All-policed_keys (λ j. k < j) ks h, policed_keys-Ascending ks hs)
  ]

  policed_keys_to : (k : ℕ) (ks : List ℕ) → Mem k (policed_keys ks) → policed (find k l) ≢ none
  unfolding policed_keys
  policed_keys_to k [] m absent = not-mem-nil m
  policed_keys_to k (j ∷ ks) m absent = elim (Option-cases (policed (find j l))) [
    | inl e ↦ policed_keys_to k ks (rw e at m) absent
    | inr (r, e) ↦
        Or.elim ⊥_prop (eq-or-mem_of_mem-cons (rw e at m))
          (λ (h : k ≡ j). some_not_none (policed (find j l)) r e (rw (← h) absent))
          (λ m'. policed_keys_to k ks m' absent)
  ]

  policed_keys_from :
      (k : ℕ) (ks : List ℕ) → policed (find k l) ≢ none → Mem k ks → Mem k (policed_keys ks)
  unfolding policed_keys
  policed_keys_from k [] ne m = m
  policed_keys_from k (j ∷ ks) ne m = elim (Option-cases (policed (find j l))) [
    | inl e ↦
        let other : k ≢ j = λ h. ne (rw h e) in
        rw e (policed_keys_from k ks ne (mem_of_ne_of_mem other m))
    | inr (r, e) ↦ rw e (
        Or.elim (Mem-prop {a = k} {l = j ∷ policed_keys ks}) (eq-or-mem_of_mem-cons m)
          (λ (h : k ≡ j). rw h mem-cons_self)
          (λ m'. mem-cons_of_mem j (policed_keys_from k ks ne m')))
  ]

  collect_rows-rows_of :
      (row : ℕ → FwdRule → Line) (ks : List ℕ)
      → collect_rows row l ks ≡ rows_of row (λ k. policed (find k l)) (policed_keys ks)
  unfolding collect_rows policed_keys
  collect_rows-rows_of row [] = refl
  collect_rows-rows_of row (k ∷ ks) = elim (Option-cases (policed (find k l))) [
    | inl e ↦ rw e (with_policy-none row k (find k l) _ e ∙ collect_rows-rows_of row ks)
    | inr (r, e) ↦
        rw (e, e)
          (with_policy-some row k (find k l) r _ e
            ∙ ap (λ rows. row k r ∷ rows) (collect_rows-rows_of row ks))
  ]

  not_policed : (o : Option FwdRule) → policed o ≢ none → o ≢ none
  not_policed none ne = ne
  not_policed (some r) ne = λ e. cc

  collect_rows-IsListed :
      (row : ℕ → FwdRule → Line)
      → HasKeysOnce l
      → IsListed
          (λ k. policed (find k l))
          row
          (policed_keys (sort_keys (keys l)))
          (collect_rows row l (sort_keys (keys l)))
  collect_rows-IsListed row once = record {
    ascending = policed_keys-Ascending _ (sort_keys-Ascending (keys l) (keys-Distinct l once));
    complete = λ k.
        let (unsort, resort) = Perm.mem_iff {a = k} (sort_keys-perm (keys l)) in
        (
          policed_keys_to k (sort_keys (keys l)),
          λ ne.
              policed_keys_from k (sort_keys (keys l)) ne
                (resort ((mem-keys k l).1 (not_policed (find k l) ne))),
        );
    rows_are = collect_rows-rows_of row (sort_keys (keys l));
  }

-- each panel lists the rules of one table
module _ (Fl : Float64) (curr prev : List (ℕ × FwdRule)) (elapsed : Fl.F) (have_prev : Bool)
    (key_fmt : ℕ → Bytes) where
  -- For a snapshot with each key once, buildRows returns the keys of its rules, each once and in
  -- ascending order, and next to each key the row of its rule.
  pub build_rows-IsListed :
      HasKeysOnce curr
      → IsListed
          (λ k. find k curr)
          (rule_row Fl key_fmt prev elapsed have_prev)
          (build_rows Fl curr prev elapsed have_prev key_fmt).0
          (build_rows Fl curr prev elapsed have_prev key_fmt).1
  unfolding build_rows
  build_rows-IsListed once = sorted_rows-IsListed _ curr _ (λ k. refl) once

-- the rows of the rules under policy of the two tables, one after the other
pub record IsEnforcement (clock : Table → ℕ → Timespec) (teid ueip : List (ℕ × FwdRule))
    (rows : List Line) : Type 0 where
  pub teid_keys : List ℕ
  pub ueip_keys : List ℕ
  pub teid_rows : List Line
  pub ueip_rows : List Line
  pub teids :
      IsListed
        (λ k. policed (find k teid))
        (λ k. enforcement_row format_teid (monotonic_now_ns (clock teid_map k)) k)
        teid_keys
        teid_rows
  pub ueips :
      IsListed
        (λ k. policed (find k ueip))
        (λ k. enforcement_row format_ueip (monotonic_now_ns (clock ueip_map k)) k)
        ueip_keys
        ueip_rows
  pub rows_are : rows ≡ teid_rows ++ ueip_rows

-- For snapshots with each key once, the enforcement panel has a row for each rule of teid_map with
-- a cap or a threshold, in ascending order of the keys, then one for each such rule of ueip_map,
-- and no other.
pub enforcement_rows-IsEnforcement :
    (clock : Table → ℕ → Timespec) (teid ueip : List (ℕ × FwdRule))
    → HasKeysOnce teid
    → HasKeysOnce ueip
    → IsEnforcement clock teid ueip (enforcement_rows clock teid ueip)
unfolding enforcement_rows
enforcement_rows-IsEnforcement clock teid ueip teid_once ueip_once = record {
  teid_keys = policed_keys teid (sort_keys (keys teid));
  ueip_keys = policed_keys ueip (sort_keys (keys ueip));
  teid_rows = collect_rows _ teid (sort_keys (keys teid));
  ueip_rows = collect_rows _ ueip (sort_keys (keys ueip));
  teids = collect_rows-IsListed teid _ teid_once;
  ueips = collect_rows-IsListed ueip _ ueip_once;
  rows_are = refl;
}
