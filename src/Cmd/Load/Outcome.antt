-- ===== src/Cmd/Load/Outcome.antt =====
-- What the sub-commands of load.go and unload.go leave behind.
use ebpf_packet_router.Prelude.{
  ℕ, ◌≡◌, refl, false, [], Option, none, some, Result, ok, err, All, inl,
}
use ebpf_packet_router.Std.Text.{Bytes}
use ebpf_packet_router.Errors.{Error, MapError}
use ebpf_packet_router.Cmd.Exec.{lift}
use ebpf_packet_router.Cmd.Exec.Post.{bind-Post, bind-carried}
use ebpf_packet_router.Cmd.Flags.{Interfaces}
use ebpf_packet_router.Loader.{
  uplink, Pin, map_pin, Call, unpin_link, pin_link, Trace, Loader, all_tables, notes, load, close,
  close_downlink,
}
use ebpf_packet_router.Loader.Held.{Owner, this_run, Held, after, started}
use ebpf_packet_router.Loader.Outcome.{is_there, IsReleased, IsLoaded, LoadOutcome}
use ebpf_packet_router.Loader.Loading.{load-Outcome}
use ebpf_packet_router.Cmd.Load.{LoadFlags, parse_mode, downlink_mode, required, load_cmd}

-- the command has ended: it holds nothing, and the maps are those that it has pinned
pub record IsInstalled (h : Held) : Type 0 where
  pub objects : h.objects ≡ false
  pub uplink_open : h.uplink_open ≡ false
  pub downlink_open : h.downlink_open ≡ false
  pub maps_pinned : All (λ t. h.pins (map_pin t) ≡ some this_run) all_tables

module _ (pins : Pin → Option Owner) where
  abbrev pub LoadCmdOutcome : Result Error Bytes → Trace → Type 0
  LoadCmdOutcome (ok line) tr = IsInstalled (after (started pins) tr)
  LoadCmdOutcome (err e) tr = IsReleased pins (after (started pins) tr)

  at_start : IsReleased pins (started pins)
  at_start = record {
    objects = refl;
    uplink_open = refl;
    downlink_open = refl;
    uplink_pin = inl refl;
    downlink_pin = refl;
  }

  module _ (answer : Trace → Call → Option MapError)
      (unpins : (tr : Trace) → answer tr (unpin_link uplink) ≡ none) where
    closed_downlink :
        (dl : Option ℕ) (tr : Trace)
        → (after (started pins) tr).downlink_open ≡ is_there dl
        → (after (started pins) (notes answer (close_downlink dl) tr)).downlink_open ≡ false
    closed_downlink none tr h = h
    closed_downlink (some index) tr h = refl

    maps_kept :
        (dl : Option ℕ) (tr : Trace)
        → All (λ t. (after (started pins) tr).pins (map_pin t) ≡ some this_run) all_tables
        → All
            (λ t.
              (after (started pins) (notes answer (close_downlink dl) tr)).pins (map_pin t)
              ≡ some this_run)
            all_tables
    maps_kept none tr h = h
    maps_kept (some index) tr h = h

    closed :
        (l : Loader) (tr : Trace)
        → IsLoaded pins l (after (started pins) tr)
        → IsInstalled (after (started pins) (close answer l tr))
    unfolding close
    closed l tr h = record {
      objects = refl;
      uplink_open = refl;
      downlink_open = closed_downlink l.downlink_index tr h.downlink_open;
      maps_pinned = maps_kept l.downlink_index tr h.maps_pinned;
    }

    -- Whichever calls fail, if the pin of the uplink's link can be removed again: if the command
    -- load succeeds, it leaves nothing open, and the five maps under the pins are those that it
    -- loaded. If it fails, it leaves nothing open, the pin of the uplink's link is as it was or
    -- gone, and that of the downlink's link is as it was.
    pub load_cmd-Outcome :
        (ifaces : Interfaces) (flags : LoadFlags)
        → LoadCmdOutcome (load_cmd answer ifaces flags []).0 (load_cmd answer ifaces flags []).1
    unfolding load_cmd
    load_cmd-Outcome ifaces flags =
        let Q = LoadCmdOutcome in
        bind-Post Q (lift (required flags.iface)) _ [] (λ e _. at_start)
          λ u _.
            bind-Post Q (lift (parse_mode flags.mode)) _ [] (λ e _. at_start)
              λ mode _.
                bind-Post Q (lift (downlink_mode flags.dl_iface flags.dl_mode)) _ []
                  (λ e _. at_start)
                  λ dl_mode _.
                    bind-carried (LoadOutcome pins) Q
                      (load answer ifaces flags.iface mode flags.dl_iface dl_mode) _ []
                      (load-Outcome pins answer unpins ifaces flags.iface mode flags.dl_iface
                        dl_mode)
                      (λ e out. out) (λ l out. closed l _ out)

-- every call succeeds but the pinning of the uplink's link
abbrev pub no_link_pin : MapError → Trace → Call → Option MapError
no_link_pin e tr (pin_link uplink) = some e
no_link_pin e tr _ = none

abbrev pub uplink_only : Bytes → Bytes → LoadFlags
uplink_only iface mode = record { iface = iface; mode = mode; dl_iface = []; dl_mode = [] }

module _ (pins : Pin → Option Owner) (ifaces : Interfaces) (iface text : Bytes) (e : MapError) where
  abbrev unpinned_run : Result Error Bytes × Trace
  unpinned_run = load_cmd (no_link_pin e) ifaces (uplink_only iface text) []
