-- ===== src/Lib.antt =====
-- The control plane of a GTP-U router that runs in XDP (gtp-router/control, in Go), and the part of
-- the XDP program (gtp-router/ebpf/gtp_xdp.c) that enforces what the control plane configures.
--
-- The program. The XDP program forwards packets by the rules in three BPF maps: teid_map by the TEID
-- of an uplink packet, ueip_map by the address of a subscriber, nat_map by the address that a NAT
-- gave it; it redirects through the devmap tx_port, caps the rate of each rule and quarantines a
-- rule that keeps meeting its cap. The maps are pinned in the BPF file system. The command gtp-ctrl
-- opens them, one sub-command at a time, and its dashboard edits them through a form.
--
-- The files, with paths from the repository's root:
--   Prelude       tests, lists and results, and the names of the libraries that all files share
--   Std           the parts of Go's standard library that the source uses: strings, strconv, fmt,
--                 encoding/binary, net and sort, on texts as lists of bytes. A number is a natural
--                 number; where a width matters the wrap-around is written out
--   Errors        one constructor for each message of an error
--   Maps          gtp-router/control/maps. Types: types.go, with FwdRule field by field. Validate:
--                 validate.go. Tables: maps.go, with the maps of github.com/cilium/ebpf as the
--                 parameter EbpfMap (Tables/Interface), whose laws say what Put, Delete, Lookup and
--                 Iterate do, and Go's map[uint32]*FwdRule as an association list (Tables/GoMap).
--                 `view` is what a table holds at a key; the methods are described by it
--   Stats         gtp-router/control/stats/stats.go: ReadFromMap over the per-CPU slots
--   Cmd           gtp-router/control/cmd. Teid: util.go. Exec: how a RunE runs, with the pinned maps
--                 as its state (Kernel) and what was written before an error left as it is. AddTeid,
--                 AddUeip, AddNat (Rule: from the flags to a rule), Delete, Listing, Load (load.go
--                 and unload.go), Stats and Root: the commands
--   Tui           gtp-router/control/tui. TextInput, Styles: the parameters that stand for an input
--                 of bubbles and for lipgloss. Form: form.go, with fields and focus; Texts: what an
--                 edit form starts with; Build: buildRule; Update: updateForm; Drawing: renderForm.
--                 Dashboard: dashboard.go. State: model, the messages and the commands; Rows, Table
--                 and Render: the panels; Selection and Changes: what keys and messages do to the
--                 model; Update: Update; Commands: what tea.Cmd does; Run: how it starts; View.
--                 Invariant: what every reachable state has; Writing: what Update writes
--   Loader        gtp-router/control/loader/loader.go: Load, Close and Unload as sequences of calls
--                 that may fail. Held: what a process holds, and what is pinned, behind its calls
--   Policy        enforce_policy and bump_rule of gtp_xdp.c, and runs of them over packets
--   Examples      tests, and values for the parameters: a map with a capacity, an
--                 input, a float64 that is a whole number
--
-- How the code's constructs appear. A method that returns an error returns a Result, and one that
-- writes returns the map that it leaves as well. A sub-command is a function of its flags, of the
-- host's interfaces (net.InterfaceByName is a look-up in a list) and of the Kernel. The time,
-- bpf_ktime_get_ns or MonotonicNowNs, is an argument. The text that a command prints is its result.
-- Loops are structural recursion. Fuel appears in two places: `digits` (Std/Number) runs on n + 1
-- steps for a number n, which has no more digits than that, and `float_shift` (Std/Float) on 11,
-- since a 64-bit number has at most 11 bits more than a float64 keeps.
--
-- The dashboard is a function of a message and of its state, with the commands that
-- bubbletea runs as data; what it asks of the host is the record Host, a panic is `none`. An int that
-- may be negative is a ℤ over the natural numbers, a float64 is a parameter (Std/Float64). A state
-- that a session reaches is given by an indexed data type, whose steps are the messages and the
-- writes of others. A run of the loader is the list of its calls with their answers, which a
-- parameter gives, so that every pattern of failures is covered.
--
-- Not modelled: the registration of commands and flags with cobra, the lines that the loader prints,
-- the OSC 52 escape of the dashboard's copy, how lipgloss renders a style and text/tabwriter pads, the
-- generated bindings, the scripts, and the rest of the XDP program (frames, encapsulation, NAT
-- rewriting and checksums). The counters of a rule are read and written without a lock in the
-- kernel; the model takes the packets of a rule one after the other. No map is opened or closed twice:
-- the Close methods of the wrappers change nothing that the model keeps.
pub mod Prelude
pub mod Std
pub mod Errors
pub mod Maps
pub mod Stats
pub mod Cmd
pub mod Tui
pub mod Loader
pub mod Policy
pub mod Examples
