-- ===== src/Examples/Loaders.antt =====
-- Runs of the loader and of its sub-commands.
use ebpf_packet_router.Prelude.{refl, [], Option, none, some}
use ebpf_packet_router.Std.Text.{codes}
use ebpf_packet_router.Errors.{MapError, map_failure}
use ebpf_packet_router.Cmd.Flags.{interface_by_name}
use ebpf_packet_router.Loader.{Pin, native_mode, generic_mode, Call, attach, put_port, Trace, load}
use ebpf_packet_router.Loader.Held.{Owner, earlier}
use ebpf_packet_router.Loader.Outcome.{LoadOutcome}
use ebpf_packet_router.Loader.Loading.{load-Outcome}
use ebpf_packet_router.Loader.Busy.{Splits, load_busy}
use ebpf_packet_router.Cmd.Load.{LoadFlags, load_cmd}
use ebpf_packet_router.Cmd.Load.Outcome.{LoadCmdOutcome, load_cmd-Outcome}
use ebpf_packet_router.Examples.Data.{interfaces}

abbrev nothing_pinned : Pin → Option Owner
nothing_pinned p = none

abbrev all_pinned : Pin → Option Owner
all_pinned p = some earlier

-- tx_port has no room
abbrev full : Trace → Call → Option MapError
full tr (put_port index) = some (map_failure 7)
full tr _ = none

-- a program is attached already
abbrev busy_link : Trace → Call → Option MapError
busy_link tr (attach side index mode) = some (map_failure 16)
busy_link tr _ = none

abbrev all_goes : Trace → Call → Option MapError
all_goes tr c = none

abbrev load_flags : LoadFlags
load_flags = record {
  iface = codes "veth-ran";
  mode = codes "native";
  dl_iface = codes "eth0";
  dl_mode = codes "skb";
}

load-Outcome_example :
    LoadOutcome nothing_pinned
      (load full interfaces (codes "veth-ran") native_mode (codes "eth0") generic_mode []).0
      (load full interfaces (codes "veth-ran") native_mode (codes "eth0") generic_mode []).1
load-Outcome_example =
    load-Outcome nothing_pinned full (λ tr. refl) interfaces (codes "veth-ran") native_mode
      (codes "eth0") generic_mode

load_busy_example :
    Splits all_pinned
      (load busy_link interfaces (codes "veth-ran") native_mode [] generic_mode []).0
      (load busy_link interfaces (codes "veth-ran") native_mode [] generic_mode []).1
unfolding interface_by_name
load_busy_example =
    load_busy all_pinned busy_link (λ tr t. refl) interfaces (codes "veth-ran") native_mode []
      generic_mode 4 (map_failure 16) refl (λ tr. refl) (λ tr. refl) (λ tr. refl)

load_cmd-Outcome_example :
    LoadCmdOutcome nothing_pinned
      (load_cmd all_goes interfaces load_flags []).0
      (load_cmd all_goes interfaces load_flags []).1
load_cmd-Outcome_example =
    load_cmd-Outcome nothing_pinned all_goes (λ tr. refl) interfaces load_flags
