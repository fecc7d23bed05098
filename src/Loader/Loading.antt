-- ===== src/Loader/Loading.antt =====
-- Load of loader.go, with every call that may fail.
use ebpf_packet_router.Prelude.{ℕ, ◌%◌, ◌^◌, ◌≡◌, refl, [], ◌∷◌, Option, none, some, ok}
use ebpf_packet_router.Std.Text.{Bytes}
use ebpf_packet_router.Errors.{
  MapError, within_context, loading_objects, making_pin_dir, attaching, at_interface,
}
use ebpf_packet_router.Cmd.Exec.{Exec, lift, ◌>>=◌, ◌>>◌}
use ebpf_packet_router.Cmd.Exec.Post.{bind-Post, bind-carried}
use ebpf_packet_router.Cmd.Flags.{Interfaces}
use ebpf_packet_router.Loader.{
  uplink, Pin, link_pin, XdpMode, Call, load_objects, close_objects, make_dir, remove, attach,
  pin_link, unpin_link, put_port, Trace, Loader, named, noted, or_undo, pin_maps, all_tables,
  provision_error, cleanup, optional_downlink, attach_all, load,
}
use ebpf_packet_router.Loader.Held.{Owner, after, started}
use ebpf_packet_router.Loader.Outcome.{LoadOutcome, bare, given_up}
use ebpf_packet_router.Loader.Pinning.{HasPinned, PinOutcome, prepared, all_pinned-Outcome}
use ebpf_packet_router.Loader.Steps.{or_undo-Post, noted_pair-Post}
use ebpf_packet_router.Loader.Downlink.{
  port_there, IsUp, loader_of, DownOutcome, given_back, optional_downlink-Outcome,
}

module _ (pins : Pin → Option Owner) where
  module _ (answer : Trace → Call → Option MapError)
      (unpins : (tr : Trace) → answer tr (unpin_link uplink) ≡ none) where
    -- behind the port of the uplink
    finished-Outcome :
        (index : ℕ) (ifaces : Interfaces) (dl_name : Bytes) (dl_mode : XdpMode) (tr : Trace)
        → IsUp pins index (after (started pins) tr)
        → let rest : Exec Trace Loader = optional_downlink answer ifaces dl_name dl_mode >>= λ dl.
            lift (ok (loader_of pins index dl)) in
          LoadOutcome pins (rest tr).0 (rest tr).1
    finished-Outcome index ifaces dl_name dl_mode tr h =
        bind-carried (DownOutcome pins (λ dl. dl) index) (LoadOutcome pins)
          (optional_downlink answer ifaces dl_name dl_mode)
          (λ dl. lift (ok (loader_of pins index dl))) tr
          (optional_downlink-Outcome pins answer unpins index ifaces dl_name dl_mode tr h)
          (λ e out. out) (λ dl out. out)

    attach_all-Outcome :
        (index : ℕ) (ifaces : Interfaces) (name : Bytes) (mode : XdpMode) (dl_name : Bytes)
        (dl_mode : XdpMode) (tr : Trace)
        → HasPinned pins all_tables (after (started pins) tr)
        → LoadOutcome pins
            (attach_all answer index ifaces name mode dl_name dl_mode tr).0
            (attach_all answer index ifaces name mode dl_name dl_mode tr).1
    unfolding attach_all
    attach_all-Outcome index ifaces name mode dl_name dl_mode tr h =
        let Q = LoadOutcome pins in
        let port = index % 2 ^ 32 in
        let down : Exec Trace Loader = optional_downlink answer ifaces dl_name dl_mode >>= λ dl.
        lift (ok (loader_of pins index dl)) in
        let put : Exec Trace Loader =
          or_undo answer (provision_error name port) cleanup (put_port port) >> down in
        or_undo-Post answer Q (within_context (attaching name)) (close_objects ∷ [])
          (attach uplink index mode)
          (λ _. noted answer (remove (link_pin uplink) ∷ pin_link uplink ∷ []) >> put) tr
          (λ e. given_up pins answer ((attach uplink index mode, some e) ∷ tr) (record {
            uplink_open = h.is_bare.uplink_open;
            downlink_open = h.is_bare.downlink_open;
            uplink_pin = h.is_bare.uplink_pin;
            downlink_pin = h.is_bare.downlink_pin;
          }))
          (noted_pair-Post answer Q (remove (link_pin uplink)) (pin_link uplink) (λ _. put)
            ((attach uplink index mode, none) ∷ tr)
            λ o1 o2.
              let pinned : Trace =
                (pin_link uplink, o2)
                ∷ (remove (link_pin uplink), o1)
                ∷ (attach uplink index mode, none)
                ∷ tr in
              or_undo-Post answer Q (provision_error name port) cleanup (put_port port) (λ _. down)
                pinned
                (λ e.
                  given_back pins answer unpins ((put_port port, some e) ∷ pinned)
                    h.is_bare.downlink_open h.is_bare.downlink_pin)
                (finished-Outcome index ifaces dl_name dl_mode ((put_port port, none) ∷ pinned)
                  (record {
                    objects = h.objects;
                    uplink_open = refl;
                    downlink_open = h.is_bare.downlink_open;
                    downlink_pin = h.is_bare.downlink_pin;
                    tables = h.tables;
                    port = port_there (after (started pins) pinned).ports port;
                  })))

    -- Whichever calls fail, if the pin of the uplink's link can be removed again: if Load succeeds,
    -- the objects and the links of the interfaces that it attached are open, the five maps under
    -- the pins are its own, and tx_port has the index of each interface. If it fails, the objects
    -- and the links are closed, the pin of the uplink's link is as it was or gone, and that of the
    -- downlink's link is as it was.
    pub load-Outcome :
        (ifaces : Interfaces) (name : Bytes) (mode : XdpMode) (dl_name : Bytes) (dl_mode : XdpMode)
        → LoadOutcome pins
            (load answer ifaces name mode dl_name dl_mode []).0
            (load answer ifaces name mode dl_name dl_mode []).1
    unfolding load
    load-Outcome ifaces name mode dl_name dl_mode =
        let Q = LoadOutcome pins in
        bind-Post Q (lift (named (within_context (at_interface name)) ifaces name)) _ []
          (λ e _. given_up pins answer [] (bare pins))
          λ index _.
            or_undo-Post answer Q (within_context loading_objects) [] load_objects _ []
              (λ e. given_up pins answer [] (bare pins))
              (or_undo-Post answer Q (within_context making_pin_dir) (close_objects ∷ []) make_dir _
                ((load_objects, none) ∷ [])
                (λ e.
                  given_up pins answer ((make_dir, some e) ∷ (load_objects, none) ∷ []) (record {
                    uplink_open = refl;
                    downlink_open = refl;
                    uplink_pin = refl;
                    downlink_pin = refl;
                  }))
                (bind-carried (PinOutcome pins all_tables) Q (pin_maps answer all_tables)
                  (λ _. attach_all answer index ifaces name mode dl_name dl_mode) prepared
                  (all_pinned-Outcome pins answer) (λ e out. out)
                  (λ _ out. attach_all-Outcome index ifaces name mode dl_name dl_mode _ out)))
