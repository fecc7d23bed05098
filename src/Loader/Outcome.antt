-- ===== src/Loader/Outcome.antt =====
-- The specification of Load in loader.go.
use ebpf_packet_router.Prelude.{
  ℕ, ◌%◌, ◌^◌, ◌≡◌, ◌⊎◌, inl, inr, refl, Bool, true, false, [], ◌∷◌, Option, none, some, Result, ok,
  err, All,
}
use ebpf_packet_router.Errors.{Error, MapError}
use ebpf_packet_router.Loader.{
  uplink, downlink, Pin, map_pin, link_pin, Call, close_objects, unpin_link, Trace, Loader, notes,
  all_tables, cleanup,
}
use ebpf_packet_router.Loader.Held.{Owner, this_run, Held, after, started}

abbrev pub is_there : Option ℕ → Bool
is_there none = false
is_there (some index) = true

-- the entry of an interface index in tx_port, if there is an index
abbrev pub HasPort : Held → Option ℕ → Type 0
HasPort h none = Unit
HasPort h (some index) = h.ports (index % 2 ^ 32) ≡ true

module _ (pins : Pin → Option Owner) where
  -- a failure leaves nothing open, and no link pinned that was not pinned before
  pub record IsReleased (h : Held) : Type 0 where
    pub objects : h.objects ≡ false
    pub uplink_open : h.uplink_open ≡ false
    pub downlink_open : h.downlink_open ≡ false
    pub uplink_pin :
        (h.pins (link_pin uplink) ≡ pins (link_pin uplink)) ⊎ (h.pins (link_pin uplink) ≡ none)
    pub downlink_pin : h.pins (link_pin downlink) ≡ pins (link_pin downlink)

  -- a success leaves the objects and the links open, the maps pinned and the ports in tx_port
  pub record IsLoaded (l : Loader) (h : Held) : Type 0 where
    pub objects : h.objects ≡ true
    pub uplink_open : h.uplink_open ≡ true
    pub downlink_open : h.downlink_open ≡ is_there l.downlink_index
    pub maps_pinned : All (λ t. h.pins (map_pin t) ≡ some this_run) all_tables
    pub uplink_port : HasPort h (some l.uplink_index)
    pub downlink_port : HasPort h l.downlink_index

  abbrev pub LoadOutcome : Result Error Loader → Trace → Type 0
  LoadOutcome (ok l) tr = IsLoaded l (after (started pins) tr)
  LoadOutcome (err e) tr = IsReleased (after (started pins) tr)

  -- nothing is attached yet
  pub record IsBare (h : Held) : Type 0 where
    pub uplink_open : h.uplink_open ≡ false
    pub downlink_open : h.downlink_open ≡ false
    pub uplink_pin : h.pins (link_pin uplink) ≡ pins (link_pin uplink)
    pub downlink_pin : h.pins (link_pin downlink) ≡ pins (link_pin downlink)

  pub bare : IsBare (started pins)
  bare = record { uplink_open = refl; downlink_open = refl; uplink_pin = refl; downlink_pin = refl }

  module _ (answer : Trace → Call → Option MapError) where
    pub given_up :
        (tr : Trace)
        → IsBare (after (started pins) tr)
        → IsReleased (after (started pins) (notes answer (close_objects ∷ []) tr))
    given_up tr h = record {
      objects = refl;
      uplink_open = h.uplink_open;
      downlink_open = h.downlink_open;
      uplink_pin = inl h.uplink_pin;
      downlink_pin = h.downlink_pin;
    }

    -- behind the attachment of the uplink
    pub cleaned :
        ((tr : Trace) → answer tr (unpin_link uplink) ≡ none)
        → (tr : Trace) → (after (started pins) tr).downlink_open ≡ false
        → (after (started pins) tr).pins (link_pin downlink) ≡ pins (link_pin downlink)
        → IsReleased (after (started pins) (notes answer cleanup tr))
    cleaned unpins tr closed same = record {
      objects = refl;
      uplink_open = refl;
      downlink_open = closed;
      uplink_pin = inr (rw (unpins tr));
      downlink_pin = same;
    }
