-- ===== src/Examples/Data.antt =====
-- The data that the tests run on: the interfaces of a host, rules, and the tables before a command.
use ebpf_packet_router.Prelude.{ℕ, true, List, [], ◌∷◌}
use ebpf_packet_router.Std.Text.{codes}
use ebpf_packet_router.Maps.Types.{FwdRule, zero_rule, action_decap_fwd, action_encap_fwd}
use ebpf_packet_router.Cmd.Exec.{Kernel}
use ebpf_packet_router.Cmd.Flags.{Interfaces}
use ebpf_packet_router.Cmd.AddTeid.Rule.{AddTeidFlags}
use ebpf_packet_router.Cmd.AddUeip.Rule.{AddUeipFlags}
use ebpf_packet_router.Cmd.AddNat.Rule.{AddNatFlags}
use ebpf_packet_router.Stats.{PerCpuStat}
use ebpf_packet_router.Examples.TableMap.{TableMap, table_maps}

abbrev pub interfaces : Interfaces
interfaces = (codes "veth-ran", 4) ∷ (codes "eth0", 2) ∷ []

-- two packets a second, quarantined for a minute after two windows that met the cap
abbrev pub limited_rule : FwdRule
limited_rule = record zero_rule {
  action = action_decap_fwd;
  out_ifindex = 2;
  dmac = 2 ∷ 0 ∷ 0 ∷ 0 ∷ 0 ∷ 1 ∷ [];
  smac = 2 ∷ 0 ∷ 0 ∷ 0 ∷ 0 ∷ 2 ∷ [];
  rate_pps = 2;
  quarantine_threshold = 2;
  quarantine_seconds = 60;
}

abbrev pub tunnel_rule : FwdRule
tunnel_rule = record zero_rule {
  action = action_encap_fwd;
  out_ifindex = 4;
  dmac = 2 ∷ 0 ∷ 0 ∷ 0 ∷ 0 ∷ 1 ∷ [];
  smac = 2 ∷ 0 ∷ 0 ∷ 0 ∷ 0 ∷ 2 ∷ [];
  teid_out = 0xBEEF;
  dst_ip = 0x0A000001;
  src_ip = 0x0A000002;
  nat_ip = 0x0A010002;
}

abbrev pub teid_table : TableMap FwdRule
teid_table = record {
  entries = (0xDEAD, limited_rule) ∷ (7, tunnel_rule) ∷ [];
  capacity = 3;
  pinned = true;
}

abbrev pub kernel : Kernel (table_maps FwdRule) (table_maps ℕ)
kernel = record {
  teid_table = teid_table;
  ueip_table = record { entries = (0x0A010002, tunnel_rule) ∷ []; capacity = 2; pinned = true };
  nat_table = record { entries = (0x0A000005, tunnel_rule) ∷ []; capacity = 2; pinned = true };
  ports = record { entries = (2, 2) ∷ []; capacity = 4; pinned = true };
}

abbrev pub add_teid_flags : AddTeidFlags
add_teid_flags = record {
  teid = codes "0x1234";
  action = codes "decap";
  out_iface = codes "veth-ran";
  dmac = codes "02:00:00:00:00:01";
  smac = codes "02:00:00:00:00:02";
  dst_ip = [];
  src_ip = [];
  teid_out = 0;
  dst_port = 2152;
  nat_ip = codes "10.0.0.5";
  rate_pps = 100;
  quarantine_threshold = 3;
  quarantine_seconds = 60;
}

abbrev pub add_ueip_flags : AddUeipFlags
add_ueip_flags = record {
  ip = codes "10.1.0.2";
  action = codes "encap";
  out_iface = codes "veth-ran";
  dmac = codes "02:00:00:00:00:01";
  smac = codes "02:00:00:00:00:02";
  teid_out = 0xBEEF;
  dst_ip = codes "10.0.0.1";
  src_ip = codes "10.0.0.2";
  rate_pps = 0;
  quarantine_threshold = 0;
  quarantine_seconds = 0;
}

abbrev pub add_nat_flags : AddNatFlags
add_nat_flags = record {
  nat_ip = codes "10.0.0.5";
  ue_ip = codes "10.1.0.2";
  out_iface = codes "veth-ran";
  dmac = codes "02:00:00:00:00:01";
  smac = codes "02:00:00:00:00:02";
  teid_out = 0xBEEF;
  dst_ip = codes "10.0.0.1";
  src_ip = codes "10.0.0.2";
}

-- two CPUs, the counters of the first about to wrap
abbrev pub busy : List PerCpuStat
busy =
    record { packets = 18446744073709551615; bytes = 1000 }
    ∷ record { packets = 3; bytes = 24 }
    ∷ []

abbrev pub idle : List PerCpuStat
idle = record { packets = 0; bytes = 0 } ∷ record { packets = 0; bytes = 0 } ∷ []

abbrev pub counters : TableMap (List PerCpuStat)
counters = record {
  entries = (0, busy) ∷ (1, idle) ∷ (2, idle) ∷ (3, busy) ∷ [];
  capacity = 4;
  pinned = true;
}
