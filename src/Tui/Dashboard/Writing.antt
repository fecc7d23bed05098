-- ===== src/Tui/Dashboard/Writing.antt =====
-- What the dashboard writes to the tables.
pub mod Updates
use ebpf_packet_router.Prelude.{
  ℕ, ◌≡◌, refl, ap, Option, none, some, Result, ok, err, Result-cases, inl, inr, ◌==◌,
  if◌then◌else◌,
}
use ebpf_packet_router.Std.Text.{codes}
use ebpf_packet_router.Std.Binary.{uint32_be}
use ebpf_packet_router.Std.Address.{parse_ip, parse_ipv4, to4}
use ebpf_packet_router.Errors.{Error}
use ebpf_packet_router.Maps.Types.{FwdRule, uint32_to_ip}
use ebpf_packet_router.Maps.Validate.{validate_rule}
use ebpf_packet_router.Maps.Validate.Laws.{IsComplete, validate_rule-eq-ok}
use ebpf_packet_router.Maps.Tables.Interface.{EbpfMap}
use ebpf_packet_router.Maps.Tables.Wrappers.{view, ip_key, teid_put, ueip_put}
use ebpf_packet_router.Maps.Tables.Wrappers.Outcomes.{
  teid_put_ok, teid_put_failed, ueip_put_ok, ueip_put_failed, teid_delete_ok, teid_delete_failed,
  ueip_delete_ok, ueip_delete_failed, ueip_delete_key,
}
use ebpf_packet_router.Cmd.Exec.{Kernel, on_teid_table}
use ebpf_packet_router.Cmd.Exec.Post.{bind-Post}
use ebpf_packet_router.Tui.Form.Texts.{Target, teid_target, ueip_target}
use ebpf_packet_router.Tui.Form.Update.{put_rule}
use ebpf_packet_router.Tui.Form.Saving.{
  stored_key, table_of, other_table, IsWritten, put_rule_ok, put_rule_failed,
}
use ebpf_packet_router.Tui.Dashboard.Defaults.{
  drop_rule, quarantine_rule, capped_rule, add_default_rules, default_ueip,
}
use ebpf_packet_router.Tui.Dashboard.Update.{delete_rule}

-- the three rules are complete, though nothing checks them before they are written
default_rules-IsComplete :
    IsComplete drop_rule × IsComplete quarantine_rule × IsComplete capped_rule
unfolding validate_rule
default_rules-IsComplete = (
  (validate_rule-eq-ok drop_rule).0 refl,
  (validate_rule-eq-ok quarantine_rule).0 refl,
  (validate_rule-eq-ok capped_rule).0 refl,
)

-- the target that a deletion goes to
abbrev pub confirmed : Option Target → Target
confirmed none = ueip_target
confirmed (some target) = target

-- 10.45.0.99
abbrev pub default_key : ℕ
default_key = 0x0A2D0063

default_ueip-key : ip_key default_ueip ≡ ok default_key
unfolding ip_key to4 parse_ip parse_ipv4 uint32_be
default_ueip-key = refl

uint32_to_ip-default_key : ip_key (uint32_to_ip default_key) ≡ ok default_key
unfolding ip_key to4 uint32_to_ip uint32_be
uint32_to_ip-default_key = refl

module _ {E : EbpfMap FwdRule} {T : EbpfMap ℕ} where
  -- the table of the target holds nothing under the key, and nothing else has changed
  pub record IsRemoved (target : Target) (s s' : Kernel E T) (key : ℕ) : Type 0 where
    pub stored : ℕ
    pub keyed : stored_key target key ≡ ok stored
    pub table :
        (k : ℕ)
        → view E (table_of target s') k
          ≡ (if stored == k then none else view E (table_of target s) k)
    pub other : other_table target s' ≡ other_table target s
    pub nat_table : s'.nat_table ≡ s.nat_table
    pub ports : s'.ports ≡ s.ports

  -- the outcome of a deletion
  abbrev pub Removal : Target → Kernel E T → ℕ → Result Error (Unit {0}) → Kernel E T → Type 0
  Removal target s key (ok _) s' = IsRemoved target s s' key
  Removal target s key (err e) s' = s' ≡ s

  teid-Removal :
      (key : ℕ) (s : Kernel E T) (r : Result Error (Unit {0}))
      → (delete_rule (some teid_target) key s).0 ≡ r
      → Removal teid_target s key r (delete_rule (some teid_target) key s).1
  teid-Removal key s (ok u) h = record {
    stored = key;
    keyed = refl;
    table = λ k. teid_delete_ok E s.teid_table key k h;
    other = refl;
    nat_table = refl;
    ports = refl;
  }
  teid-Removal key s (err e) h =
      ap (λ m. record s { teid_table = m }) (teid_delete_failed E s.teid_table key e h)

  ueip-Removal :
      (key : ℕ) (s : Kernel E T) (r : Result Error (Unit {0}))
      → (delete_rule (some ueip_target) key s).0 ≡ r
      → Removal ueip_target s key r (delete_rule (some ueip_target) key s).1
  ueip-Removal key s (ok u) h =
      let (stored, keyed) = ueip_delete_key E s.ueip_table (uint32_to_ip key) h in
      record {
        stored = stored;
        keyed = keyed;
        table = λ k. ueip_delete_ok E s.ueip_table (uint32_to_ip key) stored k keyed h;
        other = refl;
        nat_table = refl;
        ports = refl;
      }
  ueip-Removal key s (err e) h =
      ap (λ m. record s { ueip_table = m })
        (ueip_delete_failed E s.ueip_table (uint32_to_ip key) e h)

  pub delete_rule-Removal :
      (target : Option Target) (key : ℕ) (s : Kernel E T)
      → Removal (confirmed target) s key (delete_rule target key s).0 (delete_rule target key s).1
  delete_rule-Removal (some teid_target) key s = teid-Removal key s _ refl
  delete_rule-Removal (some ueip_target) key s = ueip-Removal key s _ refl
  delete_rule-Removal none key s = ueip-Removal key s _ refl

  -- the default rules that a failure has left written
  pub data IsPartly (s s' : Kernel E T) : Type 0 where
    nothing : s' ≡ s → IsPartly s s'
    first : IsWritten teid_target s s' 0xDEAD drop_rule → IsPartly s s'
    second :
        (s1 : Kernel E T)
        → IsWritten teid_target s s1 0xDEAD drop_rule
        → IsWritten teid_target s1 s' 0xBEEF quarantine_rule
        → IsPartly s s'

  -- all three are written
  pub record AreWritten (s s' : Kernel E T) : Type 0 where
    pub after_first : Kernel E T
    pub after_second : Kernel E T
    pub first : IsWritten teid_target s after_first 0xDEAD drop_rule
    pub second : IsWritten teid_target after_first after_second 0xBEEF quarantine_rule
    pub third : IsWritten ueip_target after_second s' default_key capped_rule

  abbrev pub DefaultsOutcome : Kernel E T → Result Error (Unit {0}) → Kernel E T → Type 0
  DefaultsOutcome s (ok _) s' = AreWritten s s'
  DefaultsOutcome s (err e) s' = IsPartly s s'

  third_ok :
      (s : Kernel E T) {u : Unit {0}}
      → (ueip_put E default_ueip capped_rule s.ueip_table).0 ≡ ok u
      → IsWritten ueip_target s
          (record s { ueip_table = (ueip_put E default_ueip capped_rule s.ueip_table).1 })
          default_key
          capped_rule
  third_ok s h = record {
    stored = default_key;
    keyed = uint32_to_ip-default_key;
    table =
        λ k. ueip_put_ok E s.ueip_table default_ueip default_key k capped_rule default_ueip-key h;
    other = refl;
    nat_table = refl;
    ports = refl;
  }

  last_default :
      (s k1 k2 : Kernel E T)
      → IsWritten teid_target s k1 0xDEAD drop_rule
      → IsWritten teid_target k1 k2 0xBEEF quarantine_rule
      → (r : Result Error (Unit {0})) → (ueip_put E default_ueip capped_rule k2.ueip_table).0 ≡ r
      → DefaultsOutcome s r
          (record k2 { ueip_table = (ueip_put E default_ueip capped_rule k2.ueip_table).1 })
  last_default s k1 k2 w1 w2 (ok u) h = record {
    after_first = k1;
    after_second = k2;
    first = w1;
    second = w2;
    third = third_ok k2 h;
  }
  last_default s k1 k2 w1 w2 (err e) h =
      let left = ueip_put_failed E k2.ueip_table default_ueip capped_rule e h in
      simp left (IsPartly.second k1 w1 w2)

  -- Whatever the kernel: if the test rules are added, teid_map holds the two rules, then ueip_map
  -- the third, and nothing else has changed; on a failure, the rules before it stay. The three
  -- rules are complete.
  pub add_default_rules-Outcome :
      (s : Kernel E T)
      → DefaultsOutcome s (add_default_rules s).0 (add_default_rules s).1
        × (IsComplete drop_rule × IsComplete quarantine_rule × IsComplete capped_rule)
  unfolding add_default_rules
  add_default_rules-Outcome s = (
    bind-Post (DefaultsOutcome s) (on_teid_table (teid_put E 0xDEAD drop_rule)) _ s
        (λ e h. nothing (put_rule_failed teid_target 0xDEAD drop_rule s e h))
        (λ _ h.
          let w1 = put_rule_ok teid_target 0xDEAD drop_rule s h in
          let k1 = (put_rule teid_target 0xDEAD drop_rule s).1 in
          bind-Post (DefaultsOutcome s) (on_teid_table (teid_put E 0xBEEF quarantine_rule)) _ k1
            (λ e h2.
              rw (put_rule_failed teid_target 0xBEEF quarantine_rule k1 e h2) (IsPartly.first w1))
            (λ _ h2.
              last_default s k1 _ w1 (put_rule_ok teid_target 0xBEEF quarantine_rule k1 h2) _
                refl)),
    default_rules-IsComplete,
  )
