-- ===== src/Loader/Pinning.antt =====
-- The loop of Load over its pins.
use ebpf_packet_router.Prelude.{
  ◌≡◌, inl, inr, refl, true, List, [], ◌∷◌, Option, none, some, Result, ok, err, All, Bool-cases,
  ==_iff,
}
use ebpf_packet_router.Errors.{Error, MapError, Table, within_context, pinning}
use ebpf_packet_router.Loader.{
  Pin, map_pin, Call, load_objects, close_objects, make_dir, remove, pin_map, Trace, pin_maps,
  all_tables,
}
use ebpf_packet_router.Loader.Held.{Owner, this_run, Held, pin_eq, after, after_call, started}
use ebpf_packet_router.Loader.Outcome.{IsReleased, IsBare, given_up}
use ebpf_packet_router.Loader.Steps.{or_undo-Post}

-- the calls before the maps are pinned
abbrev pub prepared : Trace
prepared = (make_dir, none) ∷ (load_objects, none) ∷ []

-- the maps of a list, the first one innermost
abbrev reverse_onto : List Table → List Table → List Table
reverse_onto [] done = done
reverse_onto (t ∷ ts) done = reverse_onto ts (t ∷ done)

-- the pin of a table is removed and made again
abbrev pinned_again : Option MapError → Table → Held → Held
pinned_again o t h = after_call (pin_map t) none (after_call (remove (map_pin t)) o h)

module _ (pins : Pin → Option Owner) where
  -- the objects are open, and the maps in the list are pinned
  pub record HasPinned (done : List Table) (h : Held) : Type 0 where
    pub objects : h.objects ≡ true
    pub is_bare : IsBare pins h
    pub tables : All (λ t. h.pins (map_pin t) ≡ some this_run) done

  pin_kept :
      (h : Held) (o : Option MapError) (t : Table) (done : List Table)
      → All (λ u. h.pins (map_pin u) ≡ some this_run) done
      → All (λ u. (pinned_again o t h).pins (map_pin u) ≡ some this_run) done
  pin_kept h o t [] all = tt
  pin_kept h o t (u ∷ done) (here, all) = elim (Bool-cases (pin_eq (map_pin t) (map_pin u))) [
    | inl e ↦ (rw e refl, pin_kept h o t done all)
    | inr e ↦ (rw e here, pin_kept h o t done all)
  ]

  pinned-IsBare :
      (t : Table) (h : Held) → IsBare pins h → IsBare pins (after_call (pin_map t) none h)
  pinned-IsBare t h b = record {
    uplink_open = b.uplink_open;
    downlink_open = b.downlink_open;
    uplink_pin = b.uplink_pin;
    downlink_pin = b.downlink_pin;
  }

  failed_pin :
      (e : MapError) (t : Table) (h : Held)
      → IsBare pins h
      → IsBare pins (after_call (pin_map t) (some e) h)
  failed_pin e t h b = record {
    uplink_open = b.uplink_open;
    downlink_open = b.downlink_open;
    uplink_pin = b.uplink_pin;
    downlink_pin = b.downlink_pin;
  }

  pin_there :
      (h : Held) (t : Table) → (after_call (pin_map t) none h).pins (map_pin t) ≡ some this_run
  pin_there h t = let same : pin_eq (map_pin t) (map_pin t) ≡ true = (==_iff _ _).1 refl in rw same

  abbrev pub PinOutcome : List Table → Result Error (Unit {0}) → Trace → Type 0
  PinOutcome done (ok _) tr = HasPinned done (after (started pins) tr)
  PinOutcome done (err e) tr = IsReleased pins (after (started pins) tr)

  in_order :
      (r : Result Error (Unit {0})) (tr : Trace)
      → PinOutcome (reverse_onto all_tables []) r tr
      → PinOutcome all_tables r tr
  in_order (ok _) tr h = record {
    objects = h.objects;
    is_bare = h.is_bare;
    tables = let (e, (d, (c, (b, (a, _))))) = h.tables in (a, (b, (c, (d, (e, tt)))));
  }
  in_order (err e) tr h = h

  module _ (answer : Trace → Call → Option MapError) where
    pin_maps-Outcome :
        (ts done : List Table) (tr : Trace)
        → HasPinned done (after (started pins) tr)
        → PinOutcome (reverse_onto ts done) (pin_maps answer ts tr).0 (pin_maps answer ts tr).1
    unfolding pin_maps
    pin_maps-Outcome [] done tr h = h
    pin_maps-Outcome (t ∷ ts) done tr h =
        let o = answer tr (remove (map_pin t)) in
        let bare' : IsBare pins (after_call (remove (map_pin t)) o (after (started pins) tr)) =
          record {
            uplink_open = h.is_bare.uplink_open;
            downlink_open = h.is_bare.downlink_open;
            uplink_pin = h.is_bare.uplink_pin;
            downlink_pin = h.is_bare.downlink_pin;
          } in
        or_undo-Post answer (PinOutcome (reverse_onto ts (t ∷ done))) (within_context (pinning t))
          (close_objects ∷ []) (pin_map t) (λ _. pin_maps answer ts) ((remove (map_pin t), o) ∷ tr)
          (λ e.
            given_up pins answer ((pin_map t, some e) ∷ (remove (map_pin t), o) ∷ tr)
              (failed_pin e t _ bare'))
          (pin_maps-Outcome ts (t ∷ done) ((pin_map t, none) ∷ (remove (map_pin t), o) ∷ tr)
            (record {
              objects = h.objects;
              is_bare = pinned-IsBare t _ bare';
              tables = (
                pin_there (after_call (remove (map_pin t)) o (after (started pins) tr)) t,
                pin_kept (after (started pins) tr) o t done h.tables,
              );
            }))

    -- the loop of Load
    pub all_pinned-Outcome :
        PinOutcome all_tables
          (pin_maps answer all_tables prepared).0
          (pin_maps answer all_tables prepared).1
    all_pinned-Outcome = in_order _ _ (
        pin_maps-Outcome all_tables [] prepared (record {
          objects = refl;
          is_bare = record {
            uplink_open = refl;
            downlink_open = refl;
            uplink_pin = refl;
            downlink_pin = refl;
          };
          tables = tt;
        }))
