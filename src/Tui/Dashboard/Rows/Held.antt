-- ===== src/Tui/Dashboard/Rows/Held.antt =====
-- The state that the enforcement panel shows.
use ebpf_packet_router.Prelude.{ℕ, ◌<◌, ◌≡◌, ◌≢◌, ◌↔◌, true, arith}
use ebpf_packet_router.Std.Text.{codes, has_prefix}
use ebpf_packet_router.Maps.Types.{FwdRule}
use ebpf_packet_router.Cmd.Listing.{quarantine_status}
use ebpf_packet_router.Cmd.Listing.Rows.{quarantine_status-yes}
use ebpf_packet_router.Tui.Dashboard.Rows.{enforcement_state}

held_until :
    (now : ℕ) (r : FwdRule)
    → enforcement_state now r ≡ codes "HELD"
    → (r.quarantine_until_ns ≢ 0) × (now < r.quarantine_until_ns)
unfolding enforcement_state
held_until now r h = ground arith

until_held :
    (now : ℕ) (r : FwdRule)
    → (r.quarantine_until_ns ≢ 0) × (now < r.quarantine_until_ns)
    → enforcement_state now r ≡ codes "HELD"
unfolding enforcement_state
until_held now r h = ground arith

until_yes :
    (now : ℕ) (r : FwdRule)
    → (r.quarantine_until_ns ≢ 0) × (now < r.quarantine_until_ns)
    → has_prefix (quarantine_status now r) (codes "YES") ≡ true
unfolding quarantine_status has_prefix
until_yes now r h = ground arith

-- The enforcement panel shows a rule as held exactly when the listing, at the same time, says that
-- it is in quarantine.
pub enforcement_state-quarantine_status :
    (now : ℕ) (r : FwdRule)
    → (enforcement_state now r ≡ codes "HELD")
      ↔ (has_prefix (quarantine_status now r) (codes "YES") ≡ true)
enforcement_state-quarantine_status now r = (
  λ h. until_yes now r (held_until now r h),
  λ h. until_held now r (quarantine_status-yes now r h),
)
