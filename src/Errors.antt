-- ===== src/Errors.antt =====
-- The errors of the control plane, one constructor for each message that a `fmt.Errorf` of maps/,
-- loader/, cmd/ and tui/ prints, and `within_context` for the messages that end in `%w`.
use ebpf_packet_router.Prelude.{ℕ}
use ebpf_packet_router.Std.Text.{Bytes}
use ebpf_packet_router.Std.Address.{Ip}
use ebpf_packet_router.Std.Strconv.{NumError}

-- What an operation of a kernel map returns: `ebpf.ErrKeyNotExist`, or any other error.
pub data MapError : Type 0 where
  key_not_exist : MapError
  map_failure : ℕ → MapError

pub data Table : Type 0 where
  teid_map ueip_map nat_map tx_port stats_map : Table

pub data Flag : Type 0 where
  ip_flag nat_ip_flag ue_ip_flag dst_ip_flag src_ip_flag : Flag
  out_iface_flag dmac_flag smac_flag teid_flag teid_out_flag : Flag
  rate_pps_flag q_threshold_flag q_seconds_flag dst_port_flag dl_mode_flag : Flag

-- the key that a message names: a TEID, an address or an interface index
pub data Key : Type 0 where
  teid_key : ℕ → Key
  address_key : Ip → Key
  ifindex_key : ℕ → Key
  slot_key : ℕ → Key

pub data Context : Type 0 where
  opening iterating fetching : Table → Context
  putting deleting looking_up : Table → Key → Context
  parsing : Flag → Context
  egress_interface : Bytes → Context
  starting_dashboard loading_objects making_pin_dir : Context
  -- the interface that a message of the loader names
  at_interface at_downlink_interface : Bytes → Context
  pinning : Table → Context
  attaching attaching_downlink provisioning : Bytes → Context

pub data Error : Type 0 where
  unknown_action : Bytes → Error
  only_ipv4 : Ip → Error
  not_ipv4_address : Ip → Error
  bad_mac : Bytes → Error
  mac_length : ℕ → Error
  quarantine_seconds_required : Error
  required_for : Flag → ℕ → Error
  required_for_encap : Flag → Error
  empty_teid : Error
  invalid_teid : Bytes → Error
  empty_value : Error
  invalid_value : Bytes → Error
  invalid_number : NumError → Error
  invalid_address : Flag → Bytes → Error
  only_ipv4_ue : Error
  no_such_interface : Bytes → Error
  unknown_mode : Bytes → Error
  interface_required : Error
  not_root : ℕ → Error
  map_error : MapError → Error
  within_context : Context → Error → Error
