-- ===== src/Cmd/Load.antt =====
-- gtp-router/control/cmd/load.go and unload.go: the sub-commands that attach the XDP program to the
-- interfaces of the host and detach it.
pub mod Outcome
use ebpf_packet_router.Prelude.{
  ◌||◌, List, [], ◌∷◌, ◌++◌, Result, ok, err, wrap, Option, if◌then◌else◌,
}
use ebpf_packet_router.Std.Text.{Bytes, bytes_eq, codes, newline}
use ebpf_packet_router.Errors.{
  Error, MapError, dl_mode_flag, parsing, unknown_mode, interface_required, within_context,
}
use ebpf_packet_router.Cmd.Exec.{Exec, lift, ◌>>=◌, ◌>>◌}
use ebpf_packet_router.Cmd.Flags.{Interfaces}
use ebpf_packet_router.Loader.{
  XdpMode, no_mode, native_mode, generic_mode, offload_mode, Call, Trace, Loader, load, close,
  unload,
}

pub record LoadFlags : Type 0 where
  pub iface : Bytes
  pub mode : Bytes
  pub dl_iface : Bytes
  pub dl_mode : Bytes

unfoldable pub parse_mode : Bytes → Result Error XdpMode
parse_mode s =
    if bytes_eq s (codes "native") || bytes_eq s (codes "driver")
    then ok native_mode
    else if bytes_eq s (codes "generic") || bytes_eq s (codes "skb")
    then ok generic_mode
    else if bytes_eq s (codes "offload") || bytes_eq s (codes "hw")
    then ok offload_mode
    else err (unknown_mode s)

-- `if loadDLIface != "" { … }`
abbrev pub downlink_mode : Bytes → Bytes → Result Error XdpMode
downlink_mode [] text = ok no_mode
downlink_mode (c ∷ iface) text = wrap (within_context (parsing dl_mode_flag)) (parse_mode text)

abbrev pub required : Bytes → Result Error (Unit {0})
required [] = err interface_required
required (c ∷ iface) = ok tt

abbrev loaded_line : Bytes → Bytes → Bytes
loaded_line iface mode =
    codes "OK  XDP program loaded on "
    ++ (iface ++ (codes " (mode: " ++ (mode ++ (codes ")" ++ newline))))

abbrev downlink_line : Bytes → Bytes → Bytes
downlink_line [] mode = []
downlink_line (c ∷ iface) mode = loaded_line (c ∷ iface) mode

unfoldable pub load_report : LoadFlags → Bytes
load_report flags =
    loaded_line flags.iface flags.mode
    ++ (downlink_line flags.dl_iface flags.dl_mode
        ++ (codes "    Maps pinned under /sys/fs/bpf/gtp_router/"
            ++ (newline
                ++ (codes "    Add rules with: gtp-ctrl add-teid / add-ueip / add-nat"
                    ++ newline))))

module _ (answer : Trace → Call → Option MapError) where
  -- `l.Close()`
  abbrev pub closing : Loader → Exec Trace (Unit {0})
  unfolding close
  closing l tr = (ok tt, close answer l tr)

  -- the sub-command, up to what it prints
  unfoldable pub load_cmd : Interfaces → LoadFlags → Exec Trace Bytes
  unfolding parse_mode load close load_report
  load_cmd ifaces flags = do
    lift (required flags.iface)
    mode ← lift (parse_mode flags.mode)
    dl_mode ← lift (downlink_mode flags.dl_iface flags.dl_mode)
    l ← load answer ifaces flags.iface mode flags.dl_iface dl_mode
    closing l
    lift (ok (load_report flags))

  unfoldable pub unload_cmd : Interfaces → Bytes → Exec Trace Bytes
  unfolding unload
  unload_cmd ifaces iface = do
    lift (required iface)
    unload answer ifaces iface
    lift (ok (codes "OK  XDP program detached from " ++ (iface ++ newline)))
