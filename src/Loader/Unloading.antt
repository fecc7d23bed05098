-- ===== src/Loader/Unloading.antt =====
-- Unload of loader.go.
use ebpf_packet_router.Prelude.{ℕ, ◌≡◌, false, [], Option, none, Result, ok, err}
use ebpf_packet_router.Errors.{Error, MapError}
use ebpf_packet_router.Loader.{Pin, Call, remove, Trace}
use ebpf_packet_router.Loader.Held.{Owner, Held, after, started, uplink_attached, downlink_attached}

module _ (answer : Trace → Call → Option MapError)
    (removes : (tr : Trace) (p : Pin) → answer tr (remove p) ≡ none)
    (pins : Pin → Option Owner) where
  abbrev at : Trace → Held
  at tr = after (started pins) tr

  -- nothing is pinned and nothing attached, or nothing was done
  pub record IsUnloaded (h : Held) : Type 0 where
    pub pins_gone : (p : Pin) → h.pins p ≡ none
    pub uplink_detached : uplink_attached h ≡ false
    pub downlink_detached : downlink_attached h ≡ false

  abbrev pub UnloadOutcome : Result Error ℕ → Trace → Type 0
  UnloadOutcome (ok index) tr = IsUnloaded (at tr)
  UnloadOutcome (err e) tr = tr ≡ []
