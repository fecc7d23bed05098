-- ===== src/Loader.antt =====
-- gtp-router/control/loader/loader.go. What the loader asks of the kernel, of the BPF file system
-- and of github.com/cilium/ebpf is a call; `answer` says for each call, behind the calls before it,
-- whether it fails. The calls with their answers are recorded, the last one first.
pub mod Held
pub mod Steps
pub mod Outcome
pub mod Pinning
pub mod Downlink
pub mod Loading
pub mod Busy
pub mod Unloading
use ebpf_packet_router.Prelude.{
  ℕ, ◌%◌, ◌^◌, Bool, true, false, List, [], ◌∷◌, Option, none, some, Result, ok, err,
}
use ebpf_packet_router.Std.Text.{Bytes}
use ebpf_packet_router.Errors.{
  Error, MapError, Table, teid_map, ueip_map, nat_map, tx_port, stats_map, Context, ifindex_key,
  putting, loading_objects, making_pin_dir, at_interface, at_downlink_interface, pinning, attaching,
  attaching_downlink, provisioning, no_such_interface, map_error, within_context,
}
use ebpf_packet_router.Maps.Tables.Wrappers.{failure}
use ebpf_packet_router.Cmd.Exec.{Exec, lift, ◌>>=◌, ◌>>◌}
use ebpf_packet_router.Cmd.Flags.{Interfaces, interface_by_name}

pub data Side : Type 0 where
  uplink downlink : Side

-- the paths of maps.go below PinDir: those of the maps, PinProg and PinProgDownlink
pub data Pin : Type 0 where
  map_pin : Table → Pin
  link_pin : Side → Pin

-- link.XDPAttachFlags, 0 among them
pub data XdpMode : Type 0 where
  no_mode native_mode generic_mode offload_mode : XdpMode

pub data Call : Type 0 where
  -- LoadGtpXdpObjects and objs.Close
  load_objects close_objects : Call
  -- os.MkdirAll and os.Remove of PinDir
  make_dir remove_dir : Call
  -- os.Remove of a pin
  remove : Pin → Call
  pin_map : Table → Call
  -- link.AttachXDP, and Pin, Unpin and Close of the link
  attach : Side → ℕ → XdpMode → Call
  pin_link unpin_link close_link : Side → Call
  -- the write of TxPortMap.Ensure
  put_port : ℕ → Call
  -- link.LoadPinnedLink, and Close of what it returns
  load_pinned_link close_pinned_link : Side → Call

abbrev pub Trace : Type 0
Trace = List (Call × Option MapError)

-- what `Load` returns: the index of the uplink interface and of the downlink interface, if any
pub record Loader : Type 0 where
  pub uplink_index : ℕ
  pub downlink_index : Option ℕ

-- net.InterfaceByName
abbrev pub named : (Error → Error) → Interfaces → Bytes → Result Error ℕ
named context ifaces name = elim (interface_by_name ifaces name) [
  | none ↦ err (context (no_such_interface name))
  | some index ↦ ok index
]

abbrev pub all_tables : List Table
all_tables = teid_map ∷ ueip_map ∷ nat_map ∷ stats_map ∷ tx_port ∷ []

abbrev pub provision_error : Bytes → ℕ → Error → Error
provision_error name index e =
    within_context (provisioning name) (within_context (putting tx_port (ifindex_key index)) e)

-- the links and the objects that are given up on an error behind the attachment of the uplink
abbrev pub cleanup : List Call
cleanup = unpin_link uplink ∷ close_link uplink ∷ close_objects ∷ []

abbrev pub close_downlink : Option ℕ → List Call
close_downlink none = []
close_downlink (some index) = close_link downlink ∷ []

abbrev pub all_pins : List Pin
all_pins =
    map_pin teid_map
    ∷ map_pin ueip_map
    ∷ map_pin nat_map
    ∷ map_pin stats_map
    ∷ map_pin tx_port
    ∷ link_pin uplink
    ∷ link_pin downlink
    ∷ []

abbrev pub removals : List Pin → List Call
removals [] = []
removals (p ∷ ps) = remove p ∷ removals ps

module _ (answer : Trace → Call → Option MapError) where
  -- a call whose error is ignored
  abbrev pub note : Call → Trace → Trace
  note c tr = (c, answer tr c) ∷ tr

  abbrev pub notes : List Call → Trace → Trace
  notes [] tr = tr
  notes (c ∷ cs) tr = notes cs (note c tr)

  abbrev pub noted : List Call → Exec Trace (Unit {0})
  noted cs tr = (ok tt, notes cs tr)

  abbrev pub undone :
      (Error → Error) → List Call → Option MapError → Trace → Result Error (Unit {0}) × Trace
  undone context undo none tr = (ok tt, tr)
  undone context undo (some e) tr = (err (context (map_error e)), notes undo tr)

  -- `if err := call; err != nil { undo; return fmt.Errorf("…: %w", err) }`
  abbrev pub or_undo : (Error → Error) → List Call → Call → Exec Trace (Unit {0})
  or_undo context undo c tr = undone context undo (answer tr c) (note c tr)

  -- the same where it is no call that fails
  abbrev pub undo_error : {A : Type 0} → List Call → Result Error A → Exec Trace A
  undo_error undo (ok a) tr = (ok a, tr)
  undo_error undo (err e) tr = (err e, notes undo tr)

  -- the loop over `pins`
  unfoldable pub pin_maps : List Table → Exec Trace (Unit {0})
  pin_maps [] = lift (ok tt)
  pin_maps (t ∷ ts) =
      noted (remove (map_pin t) ∷ [])
      >> (or_undo (within_context (pinning t)) (close_objects ∷ []) (pin_map t) >> pin_maps ts)

  unfoldable pub load_downlink : Interfaces → Bytes → XdpMode → Exec Trace ℕ
  load_downlink ifaces name mode = do
    index ← undo_error cleanup (named (within_context (at_downlink_interface name)) ifaces name)
    or_undo (provision_error name (index % 2 ^ 32)) cleanup (put_port (index % 2 ^ 32))
    or_undo (within_context (attaching_downlink name)) cleanup (attach downlink index mode)
    noted (remove (link_pin downlink) ∷ pin_link downlink ∷ [])
    lift (ok index)

  -- `if dlIface != "" { … }`
  abbrev pub optional_downlink : Interfaces → Bytes → XdpMode → Exec Trace (Option ℕ)
  optional_downlink ifaces [] mode = lift (ok none)
  optional_downlink ifaces (c ∷ name) mode =
      load_downlink ifaces (c ∷ name) mode >>= λ index. lift (ok (some index))

  -- From the attachment of the uplink on. A link that cannot be pinned is a warning on stderr.
  unfoldable pub attach_all : ℕ → Interfaces → Bytes → XdpMode → Bytes → XdpMode → Exec Trace Loader
  unfolding load_downlink
  attach_all index ifaces name mode dl_name dl_mode = do
    or_undo (within_context (attaching name)) (close_objects ∷ []) (attach uplink index mode)
    noted (remove (link_pin uplink) ∷ pin_link uplink ∷ [])
    or_undo (provision_error name (index % 2 ^ 32)) cleanup (put_port (index % 2 ^ 32))
    dl_index ← optional_downlink ifaces dl_name dl_mode
    lift (ok (record { uplink_index = index; downlink_index = dl_index }))

  unfoldable pub load : Interfaces → Bytes → XdpMode → Bytes → XdpMode → Exec Trace Loader
  unfolding pin_maps attach_all
  load ifaces name mode dl_name dl_mode = do
    index ← lift (named (within_context (at_interface name)) ifaces name)
    or_undo (within_context loading_objects) [] load_objects
    or_undo (within_context making_pin_dir) (close_objects ∷ []) make_dir
    pin_maps all_tables
    attach_all index ifaces name mode dl_name dl_mode

  -- `Loader.Close`
  unfoldable pub close : Loader → Trace → Trace
  close l tr =
      notes (close_link uplink ∷ close_objects ∷ []) (notes (close_downlink l.downlink_index) tr)

  abbrev pub close_if_there : Side → Option MapError → Trace → Trace
  close_if_there side none tr = note (close_pinned_link side) tr
  close_if_there side (some e) tr = tr

  -- `if pinnedLink, err := link.LoadPinnedLink(…); err == nil { pinnedLink.Close() }`
  abbrev pub close_pinned : Side → Trace → Trace
  close_pinned side tr =
      close_if_there side (answer tr (load_pinned_link side)) (note (load_pinned_link side) tr)

  abbrev pub links_closed : Exec Trace (Unit {0})
  links_closed tr = (ok tt, close_pinned downlink (close_pinned uplink tr))

  unfoldable pub unload : Interfaces → Bytes → Exec Trace ℕ
  unload ifaces name = do
    index ← lift (named (within_context (at_interface name)) ifaces name)
    links_closed
    noted (removals all_pins)
    noted (remove_dir ∷ [])
    lift (ok index)
