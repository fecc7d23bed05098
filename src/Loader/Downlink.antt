-- ===== src/Loader/Downlink.antt =====
-- The downlink block of Load in loader.go.
use ebpf_packet_router.Prelude.{
  ℕ, ◌%◌, ◌^◌, ◌≡◌, refl, Bool, true, false, [], ◌∷◌, Option, none, some, Result, ok, err, All,
  ==_iff, ◌==◌, if_both, if◌then◌else◌,
}
use ebpf_packet_router.Std.Text.{Bytes}
use ebpf_packet_router.Errors.{
  Error, MapError, within_context, attaching_downlink, at_downlink_interface,
}
use ebpf_packet_router.Cmd.Exec.{lift}
use ebpf_packet_router.Cmd.Exec.Post.{bind-carried}
use ebpf_packet_router.Cmd.Flags.{Interfaces}
use ebpf_packet_router.Loader.{
  uplink, downlink, Pin, map_pin, link_pin, XdpMode, Call, remove, attach, pin_link, unpin_link,
  put_port, Trace, Loader, named, notes, all_tables, provision_error, cleanup, load_downlink,
  optional_downlink,
}
use ebpf_packet_router.Loader.Held.{Owner, this_run, Held, after, started}
use ebpf_packet_router.Loader.Outcome.{HasPort, IsReleased, IsLoaded, cleaned}
use ebpf_packet_router.Loader.Steps.{or_undo-Post, noted_pair-Post, undo_error-Post}

pub port_there : (ports : ℕ → Bool) (i : ℕ) → (if i == i then true else ports i) ≡ true
port_there ports i = let same : (i == i) ≡ true = (==_iff i i).1 refl in rw same

port_kept :
    (ports : ℕ → Bool) (i j : ℕ) → ports j ≡ true → (if i == j then true else ports j) ≡ true
port_kept ports i j h = if_both (λ b. b ≡ true) (i == j) true (ports j) refl h

module _ (pins : Pin → Option Owner) where
  -- the program is attached to the uplink, and its port is in tx_port
  pub record IsUp (index : ℕ) (h : Held) : Type 0 where
    pub objects : h.objects ≡ true
    pub uplink_open : h.uplink_open ≡ true
    pub downlink_open : h.downlink_open ≡ false
    pub downlink_pin : h.pins (link_pin downlink) ≡ pins (link_pin downlink)
    pub tables : All (λ t. h.pins (map_pin t) ≡ some this_run) all_tables
    pub port : HasPort h (some index)

  -- the loader that is returned for the two indexes
  abbrev pub loader_of : ℕ → Option ℕ → Loader
  loader_of index dl = record { uplink_index = index; downlink_index = dl }

  abbrev pub DownOutcome : {A : Type 0} → (A → Option ℕ) → ℕ → Result Error A → Trace → Type 0
  DownOutcome f index (ok dl) tr = IsLoaded pins (loader_of index (f dl)) (after (started pins) tr)
  DownOutcome f index (err e) tr = IsReleased pins (after (started pins) tr)

  module _ (answer : Trace → Call → Option MapError)
      (unpins : (tr : Trace) → answer tr (unpin_link uplink) ≡ none) where
    -- a call that changes neither the downlink link nor its pin, and then the clean-up
    pub given_back :
        (tr : Trace)
        → (after (started pins) tr).downlink_open ≡ false
        → (after (started pins) tr).pins (link_pin downlink) ≡ pins (link_pin downlink)
        → IsReleased pins (after (started pins) (notes answer cleanup tr))
    given_back = cleaned pins answer unpins

    load_downlink-Outcome :
        (index : ℕ) (ifaces : Interfaces) (name : Bytes) (mode : XdpMode) (tr : Trace)
        → IsUp index (after (started pins) tr)
        → DownOutcome some index
            (load_downlink answer ifaces name mode tr).0
            (load_downlink answer ifaces name mode tr).1
    unfolding load_downlink
    load_downlink-Outcome index ifaces name mode tr h =
        let Q = DownOutcome some index in
        undo_error-Post answer Q cleanup
          (named (within_context (at_downlink_interface name)) ifaces name) _ tr
          (λ e. given_back tr h.downlink_open h.downlink_pin)
          λ dl _.
            or_undo-Post answer Q (provision_error name (dl % 2 ^ 32)) cleanup
              (put_port (dl % 2 ^ 32)) _ tr
              (λ e.
                given_back ((put_port (dl % 2 ^ 32), some e) ∷ tr) h.downlink_open h.downlink_pin)
              (or_undo-Post answer Q (within_context (attaching_downlink name)) cleanup
                (attach downlink dl mode) _ ((put_port (dl % 2 ^ 32), none) ∷ tr)
                (λ e.
                  given_back
                    ((attach downlink dl mode, some e) ∷ (put_port (dl % 2 ^ 32), none) ∷ tr)
                    h.downlink_open h.downlink_pin)
                (noted_pair-Post answer Q (remove (link_pin downlink)) (pin_link downlink)
                  (λ _. lift (ok dl))
                  ((attach downlink dl mode, none) ∷ (put_port (dl % 2 ^ 32), none) ∷ tr)
                  (λ o1 o2. record {
                    objects = h.objects;
                    uplink_open = h.uplink_open;
                    downlink_open = refl;
                    maps_pinned = h.tables;
                    uplink_port =
                        port_kept (after (started pins) tr).ports (dl % 2 ^ 32) (index % 2 ^ 32)
                          h.port;
                    downlink_port = port_there (after (started pins) tr).ports (dl % 2 ^ 32);
                  })))

    pub optional_downlink-Outcome :
        (index : ℕ) (ifaces : Interfaces) (name : Bytes) (mode : XdpMode) (tr : Trace)
        → IsUp index (after (started pins) tr)
        → DownOutcome
            (λ dl. dl)
            index
            (optional_downlink answer ifaces name mode tr).0
            (optional_downlink answer ifaces name mode tr).1
    optional_downlink-Outcome index ifaces [] mode tr h = record {
      objects = h.objects;
      uplink_open = h.uplink_open;
      downlink_open = h.downlink_open;
      maps_pinned = h.tables;
      uplink_port = h.port;
      downlink_port = tt;
    }
    optional_downlink-Outcome index ifaces (c ∷ name) mode tr h =
        bind-carried (DownOutcome some index) (DownOutcome (λ dl. dl) index)
          (load_downlink answer ifaces (c ∷ name) mode) (λ dl. lift (ok (some dl))) tr
          (load_downlink-Outcome index ifaces (c ∷ name) mode tr h) (λ e out. out) (λ dl out. out)
