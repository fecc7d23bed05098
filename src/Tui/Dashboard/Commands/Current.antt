-- ===== src/Tui/Dashboard/Commands/Current.antt =====
-- What fetchCmd of dashboard.go brings back.
use mathlib.Core.Path.{subst}
use ebpf_packet_router.Prelude.{
  ℕ, ◌+◌, ◌≡◌, refl, ap, ◌∙◌, arith, List, [], ◌∷◌, ◌++◌, none, some, Option, Result, ok, err, wrap,
  All, All-append, on_bind,
}
use ebpf_packet_router.Std.Text.{Bytes}
use ebpf_packet_router.Errors.{Error, teid_map, ueip_map, fetching, within_context, stats_map}
use ebpf_packet_router.Maps.Types.{FwdRule}
use ebpf_packet_router.Maps.Tables.Interface.{EbpfMap}
use ebpf_packet_router.Maps.Tables.GoMap.{find, HasKeysOnce}
use ebpf_packet_router.Maps.Tables.Wrappers.{teid_list, ueip_list, view}
use ebpf_packet_router.Maps.Tables.Wrappers.Listing.{teid_list-view, ueip_list-view}
use ebpf_packet_router.Stats.{PerCpuStat, read}
use ebpf_packet_router.Cmd.Exec.{Kernel}
use ebpf_packet_router.Cmd.Listing.Rows.{list_entries-HasKeysOnce}
use ebpf_packet_router.Tui.TextInput.{TextInput}
use ebpf_packet_router.Tui.Dashboard.State.{
  Host, Machine, Snapshot, Command, no_command, fetch, quit, tick_after, batch, start_ping,
  stop_ping, copy, Msg, window_size, key_msg, ping_toggled, copy_result, tick_msg, data_msg,
  other_msg,
}
use ebpf_packet_router.Tui.Dashboard.Commands.{
  fetch_snapshot, run_command, ping_message, copy_message, start_argv, snapshot_path,
  stop_ping_sync,
}

pub wrapped_ok :
    {A : Type 0} (f : Error → Error) (r : Result Error A) (a : A) → wrap f r ≡ ok a → r ≡ ok a
wrapped_ok f (ok b) a e = e
wrapped_ok f (err x) a e = cc

wrapped_err :
    {A : Type 0} (f : Error → Error) (r : Result Error A) (e : Error)
    → wrap f r ≡ err e
    → (x : Error) × ((r ≡ err x) × (f x ≡ e))
wrapped_err f (ok b) e h = cc
wrapped_err f (err x) e h = (x, (refl, cc))

-- a Go map has at each key what a table holds there, and has it once
pub record Mirrors (E : EbpfMap FwdRule) (table : E.Map) (l : List (ℕ × FwdRule)) : Type 0 where
  pub held : (k : ℕ) → find k l ≡ view E table k
  pub once : HasKeysOnce l

module _ {E : EbpfMap FwdRule} {T : EbpfMap ℕ} (M : EbpfMap (List PerCpuStat)) (host : Host)
    (tables : Kernel E T) (stats : M.Map) where
  -- the tables, the counters and the time of the host, as they are
  pub record IsCurrentSnapshot (m : Snapshot) : Type 0 where
    pub teids : Mirrors E tables.teid_table m.teid
    pub ueips : Mirrors E tables.ueip_table m.ueip
    pub counters : read M stats ≡ ok m.counters
    pub time : m.fetched_at ≡ host.now

  -- the first of the three reads that fails, and its error with the map's name before it
  pub data FirstFailure (e : Error) : Type 0 where
    teid_fails :
        (x : Error)
        → teid_list E tables.teid_table ≡ err x
        → within_context (fetching teid_map) x ≡ e
        → FirstFailure e
    ueip_fails :
        (teids : List (ℕ × FwdRule)) (x : Error)
        → teid_list E tables.teid_table ≡ ok teids
        → ueip_list E tables.ueip_table ≡ err x
        → within_context (fetching ueip_map) x ≡ e
        → FirstFailure e
    stats_fail :
        (teids ueips : List (ℕ × FwdRule)) (x : Error)
        → teid_list E tables.teid_table ≡ ok teids
        → ueip_list E tables.ueip_table ≡ ok ueips
        → read M stats ≡ err x
        → within_context (fetching stats_map) x ≡ e
        → FirstFailure e

  abbrev pub IsCurrentResult : Result Error Snapshot → Type 0
  IsCurrentResult (ok m) = IsCurrentSnapshot m
  IsCurrentResult (err e) = FirstFailure e

  module _ (I : TextInput) where
    -- if the message brings data, they are current
    abbrev pub IsCurrent : Msg I → Type 0
    IsCurrent (data_msg r) = IsCurrentResult r
    IsCurrent (window_size width) = Unit
    IsCurrent (key_msg msg) = Unit
    IsCurrent (ping_toggled on e) = Unit
    IsCurrent (copy_result path e) = Unit
    IsCurrent tick_msg = Unit
    IsCurrent other_msg = Unit

module _ {E : EbpfMap FwdRule} {T : EbpfMap ℕ} {M : EbpfMap (List PerCpuStat)} (host : Host) where
  fetch_snapshot-IsCurrentResult :
      (s : Machine E T M) → IsCurrentResult M host s.tables s.stats_table (fetch_snapshot host s)
  unfolding fetch_snapshot
  fetch_snapshot-IsCurrentResult s =
      let P = IsCurrentResult M host s.tables s.stats_table in
      on_bind P (wrap (within_context (fetching teid_map)) (teid_list E s.tables.teid_table)) _
        (λ teids t.
          let t' = wrapped_ok _ _ teids t in
          on_bind P (wrap (within_context (fetching ueip_map)) (ueip_list E s.tables.ueip_table)) _
            (λ ueips u.
              let u' = wrapped_ok _ _ ueips u in
              on_bind P (wrap (within_context (fetching stats_map)) (read M s.stats_table)) _
                (λ c r. record {
                  teids = record {
                    held = λ k. teid_list-view E s.tables.teid_table k t';
                    once =
                        list_entries-HasKeysOnce E s.tables.teid_table teid_map
                          (unfold teid_list in t');
                  };
                  ueips = record {
                    held = λ k. ueip_list-view E s.tables.ueip_table k u';
                    once =
                        list_entries-HasKeysOnce E s.tables.ueip_table ueip_map
                          (unfold ueip_list in u');
                  };
                  counters = wrapped_ok _ _ c r;
                  time = refl;
                })
                (λ e r.
                  let (x, (failed, named)) = wrapped_err _ _ e r in
                  stats_fail teids ueips x t' u' failed named))
            (λ e u.
              let (x, (failed, named)) = wrapped_err _ _ e u in ueip_fails teids x t' failed named))
        (λ e t. let (x, (failed, named)) = wrapped_err _ _ e t in teid_fails x failed named)

-- how often a command fetches, and how many of the messages bring data
abbrev pub fetches : Command → ℕ
fetches no_command = 0
fetches fetch = 1
fetches quit = 0
fetches (tick_after interval) = 0
fetches (batch c1 c2) = fetches c1 + fetches c2
fetches (start_ping ns interval size target) = 0
fetches (stop_ping target) = 0
fetches (copy content) = 0

module _ (I : TextInput) where
  abbrev brings : Msg I → ℕ
  brings (data_msg r) = 1
  brings (window_size width) = 0
  brings (key_msg msg) = 0
  brings (ping_toggled on e) = 0
  brings (copy_result path e) = 0
  brings tick_msg = 0
  brings other_msg = 0

  abbrev pub snapshots : List (Msg I) → ℕ
  snapshots [] = 0
  snapshots (msg ∷ msgs) = brings msg + snapshots msgs

  snapshots-append : (l1 l2 : List (Msg I)) → snapshots (l1 ++ l2) ≡ snapshots l1 + snapshots l2
  snapshots-append [] l2 = omega arith
  snapshots-append (msg ∷ l1) l2 = let rest = snapshots-append l1 l2 in omega (arith, rest)

  ping_message-brings : (o : Option Bytes) → brings (ping_message I o) ≡ 0
  ping_message-brings none = refl
  ping_message-brings (some e) = refl

  copy_message-brings : (o : Option Bytes) → brings (copy_message I o) ≡ 0
  copy_message-brings none = refl
  copy_message-brings (some e) = refl

module _ {E : EbpfMap FwdRule} {T : EbpfMap ℕ} {M : EbpfMap (List PerCpuStat)} (host : Host)
    (I : TextInput) where
  -- what a command sends, and what it leaves
  pub record Ran (c : Command) (s : Machine E T M) (msgs : List (Msg I)) (s' : Machine E T M)
      : Type 0 where
    pub current : All (IsCurrent M host s.tables s.stats_table I) msgs
    pub answered : snapshots I msgs ≡ fetches c
    pub tables_kept : s'.tables ≡ s.tables
    pub stats_kept : s'.stats_table ≡ s.stats_table

  batch-Ran :
      (c1 c2 : Command) (s s1 s2 : Machine E T M) (msgs1 msgs2 : List (Msg I))
      → Ran c1 s msgs1 s1
      → Ran c2 s1 msgs2 s2
      → Ran (batch c1 c2) s (msgs1 ++ msgs2) s2
  batch-Ran c1 c2 s s1 s2 msgs1 msgs2 r1 r2 = record {
    current = All-append (IsCurrent M host s.tables s.stats_table I) msgs1 msgs2 r1.current (
        subst (λ t. All (IsCurrent M host t s.stats_table I) msgs2) r1.tables_kept
          (subst (λ m. All (IsCurrent M host s1.tables m I) msgs2) r1.stats_kept r2.current));
    answered =
        snapshots-append I msgs1 msgs2
        ∙ ap (λ n. n + snapshots I msgs2) r1.answered
        ∙ ap (λ n. fetches c1 + n) r2.answered;
    tables_kept = r2.tables_kept ∙ r1.tables_kept;
    stats_kept = r2.stats_kept ∙ r1.stats_kept;
  }

  ping_message-IsCurrent :
      (s : Machine E T M) (o : Option Bytes)
      → IsCurrent M host s.tables s.stats_table I (ping_message I o)
  ping_message-IsCurrent s none = tt
  ping_message-IsCurrent s (some e) = tt

  copy_message-IsCurrent :
      (s : Machine E T M) (o : Option Bytes)
      → IsCurrent M host s.tables s.stats_table I (copy_message I o)
  copy_message-IsCurrent s none = tt
  copy_message-IsCurrent s (some e) = tt

  -- A command of the dashboard, a batch included, leaves the tables and the counters as they are,
  -- and sends as many messages with data as it has fetches in it. If such a message has a snapshot,
  -- its two maps have at each key what teid_map and ueip_map hold there, and each key once, its
  -- counters are those that Read returns, and its time is the host's; if it has an error, this is
  -- that of the first of the three reads that fails, with the map's name before it.
  pub run_command-Ran :
      (c : Command) (s : Machine E T M)
      → Ran c s (run_command I host c s).0 (run_command I host c s).1
  unfolding run_command stop_ping_sync
  run_command-Ran no_command s = record {
    current = tt;
    answered = refl;
    tables_kept = refl;
    stats_kept = refl;
  }
  run_command-Ran quit s = record {
    current = tt;
    answered = refl;
    tables_kept = refl;
    stats_kept = refl;
  }
  run_command-Ran fetch s = record {
    current = (fetch_snapshot-IsCurrentResult host s, tt);
    answered = refl;
    tables_kept = refl;
    stats_kept = refl;
  }
  run_command-Ran (tick_after interval) s = record {
    current = (tt, tt);
    answered = refl;
    tables_kept = refl;
    stats_kept = refl;
  }
  run_command-Ran (batch c1 c2) s =
      batch-Ran c1 c2 s (run_command I host c1 s).1
        (run_command I host c2 (run_command I host c1 s).1).1 (run_command I host c1 s).0
        (run_command I host c2 (run_command I host c1 s).1).0 (run_command-Ran c1 s)
        (run_command-Ran c2 (run_command I host c1 s).1)
  run_command-Ran (start_ping ns interval size target) s =
      let o = host.run_command (start_argv ns interval size target) in
      record {
        current = (ping_message-IsCurrent s o, tt);
        answered = ap (λ n. n + 0) (ping_message-brings I o);
        tables_kept = refl;
        stats_kept = refl;
      }
  run_command-Ran (stop_ping target) s = record {
    current = (tt, tt);
    answered = refl;
    tables_kept = refl;
    stats_kept = refl;
  }
  run_command-Ran (copy content) s =
      let o = host.write_file snapshot_path content in
      record {
        current = (copy_message-IsCurrent s o, tt);
        answered = ap (λ n. n + 0) (copy_message-brings I o);
        tables_kept = refl;
        stats_kept = refl;
      }
