-- ===== src/Loader/Busy.antt =====
-- What Load does to the pins when the program cannot be attached, as it cannot when an earlier run
-- has attached it.
use mathlib.Core.Path.{subst}
use ebpf_packet_router.Prelude.{
  ℕ, ◌%◌, ◌^◌, ◌≡◌, refl, List, [], ◌∷◌, Option, none, some, Result, ok, err, All,
}
use ebpf_packet_router.Std.Text.{Bytes}
use ebpf_packet_router.Errors.{
  Error, MapError, Table, within_context, loading_objects, making_pin_dir, at_interface, attaching,
  pinning,
}
use ebpf_packet_router.Cmd.Exec.{Exec, lift, ◌>>=◌, ◌>>◌}
use ebpf_packet_router.Cmd.Exec.Post.{bind-Post}
use ebpf_packet_router.Cmd.Flags.{Interfaces}
use ebpf_packet_router.Loader.{
  uplink, downlink, Pin, map_pin, link_pin, XdpMode, Call, load_objects, close_objects, make_dir,
  remove, pin_map, attach, pin_link, put_port, Trace, Loader, named, noted, or_undo, pin_maps,
  all_tables, cleanup, provision_error, optional_downlink, attach_all, load,
}
use ebpf_packet_router.Loader.Held.{Owner, this_run, after, started}
use ebpf_packet_router.Loader.Pinning.{HasPinned, PinOutcome, prepared, all_pinned-Outcome}
use ebpf_packet_router.Loader.Steps.{or_undo_goes, or_undo_fails}

ok_not_err : (r : Result Error (Unit {0})) (e : Error) → r ≡ ok tt → r ≡ err e → ⊥
ok_not_err r e h g = cc

module _ (pins : Pin → Option Owner) where
  -- the maps under the pins are those of this run, the links are those of before
  pub record IsSplit (tr : Trace) : Type 0 where
    pub maps_replaced :
        All (λ t. (after (started pins) tr).pins (map_pin t) ≡ some this_run) all_tables
    pub uplink_pin : (after (started pins) tr).pins (link_pin uplink) ≡ pins (link_pin uplink)
    pub downlink_pin : (after (started pins) tr).pins (link_pin downlink) ≡ pins (link_pin downlink)

  abbrev pub Splits : Result Error Loader → Trace → Type 0
  Splits (ok l) tr = ⊥
  Splits (err e) tr = IsSplit tr

  module _ (answer : Trace → Call → Option MapError)
      (pinned : (tr : Trace) (t : Table) → answer tr (pin_map t) ≡ none) where
    pin_maps_goes : (ts : List Table) (tr : Trace) → (pin_maps answer ts tr).0 ≡ ok tt
    unfolding pin_maps
    pin_maps_goes [] tr = refl
    pin_maps_goes (t ∷ ts) tr =
        or_undo_goes answer (λ r _. r ≡ ok tt) (within_context (pinning t)) (close_objects ∷ [])
          (pin_map t) (λ _. pin_maps answer ts)
          ((remove (map_pin t), answer tr (remove (map_pin t))) ∷ tr) (pinned _ t)
          (pin_maps_goes ts _)

    -- If the program can be loaded and its maps can be pinned, but it cannot be attached to the
    -- uplink, as when another one is attached, for an interface that is there, Load fails and
    -- leaves its own maps under the pins of the five maps, and the pins of the two links as they
    -- were.
    pub load_busy :
        (ifaces : Interfaces) (name : Bytes) (mode : XdpMode) (dl_name : Bytes) (dl_mode : XdpMode)
        (index : ℕ) (e : MapError)
        → named (within_context (at_interface name)) ifaces name ≡ ok index
        → ((tr : Trace) → answer tr load_objects ≡ none)
        → ((tr : Trace) → answer tr make_dir ≡ none)
        → ((tr : Trace) → answer tr (attach uplink index mode) ≡ some e)
        → Splits
            (load answer ifaces name mode dl_name dl_mode []).0
            (load answer ifaces name mode dl_name dl_mode []).1
    unfolding load attach_all
    load_busy ifaces name mode dl_name dl_mode index e found loads makes busy =
        let h : HasPinned pins all_tables
            (after (started pins) (pin_maps answer all_tables prepared).1) =
          subst (λ r. PinOutcome pins all_tables r (pin_maps answer all_tables prepared).1)
            (pin_maps_goes all_tables prepared) (all_pinned-Outcome pins answer) in
        let after_pin : Exec Trace Loader =
          or_undo answer (provision_error name (index % 2 ^ 32)) cleanup (put_port (index % 2 ^ 32))
          >> (optional_downlink answer ifaces dl_name dl_mode >>= λ dl.
              lift (ok (record { uplink_index = index; downlink_index = dl }))) in
        let rest : Exec Trace Loader = attach_all answer index ifaces name mode dl_name dl_mode in
        let pin_all : Exec Trace Loader = pin_maps answer all_tables >> rest in
        rw found (
          or_undo_goes answer Splits (within_context loading_objects) [] load_objects
            (λ _.
              or_undo answer (within_context making_pin_dir) (close_objects ∷ []) make_dir
              >> pin_all)
            [] (loads [])
            (or_undo_goes answer Splits (within_context making_pin_dir) (close_objects ∷ [])
              make_dir (λ _. pin_all) _ (makes _)
              (bind-Post Splits (pin_maps answer all_tables) (λ _. rest) prepared
                (λ x got. absurd (ok_not_err _ x (pin_maps_goes all_tables prepared) got))
                (λ _ _.
                  or_undo_fails answer Splits (within_context (attaching name)) (close_objects ∷ [])
                    (attach uplink index mode)
                    (λ _.
                      noted answer (remove (link_pin uplink) ∷ pin_link uplink ∷ []) >> after_pin)
                    _ (busy _)
                    (record {
                      maps_replaced = h.tables;
                      uplink_pin = h.is_bare.uplink_pin;
                      downlink_pin = h.is_bare.downlink_pin;
                    })))))
