-- ===== src/Loader/Held.antt =====
-- What a process that has made some calls of the loader holds, and what is pinned: the objects and
-- the links that are open, the pins, and the entries that it has written to its tx_port.
use ebpf_packet_router.Prelude.{
  ℕ, Bool, true, false, ◌||◌, [], ◌∷◌, Option, none, some, ◌==◌, if◌then◌else◌,
}
use ebpf_packet_router.Errors.{MapError, Table, teid_map, ueip_map, nat_map, tx_port, stats_map}
use ebpf_packet_router.Loader.{
  Side, uplink, downlink, Pin, map_pin, link_pin, Call, load_objects, close_objects, make_dir,
  remove_dir, remove, pin_map, attach, pin_link, unpin_link, close_link, put_port, load_pinned_link,
  close_pinned_link, Trace,
}

-- a pin of an earlier run, or of this one
pub data Owner : Type 0 where
  earlier this_run : Owner

abbrev side_eq : Side → Side → Bool
side_eq uplink uplink = true
side_eq uplink downlink = false
side_eq downlink uplink = false
side_eq downlink downlink = true

abbrev place : Table → ℕ
place teid_map = 0
place ueip_map = 1
place nat_map = 2
place stats_map = 3
place tx_port = 4

abbrev pub pin_eq : Pin → Pin → Bool
pin_eq (map_pin s) (map_pin t) = place s == place t
pin_eq (map_pin s) (link_pin b) = false
pin_eq (link_pin a) (map_pin t) = false
pin_eq (link_pin a) (link_pin b) = side_eq a b

pub record Held : Type 0 where
  pub objects : Bool
  pub uplink_open : Bool
  pub downlink_open : Bool
  pub pins : Pin → Option Owner
  pub ports : ℕ → Bool

-- a call that fails changes nothing
abbrev pub unless_failed {ℓ} : {A : Type ℓ} → Option MapError → A → A → A
unless_failed none new old = new
unless_failed (some e) new old = old

abbrev with_pin : Option MapError → Pin → Option Owner → (Pin → Option Owner) → Pin → Option Owner
with_pin o p owner pins q = if pin_eq p q then unless_failed o owner (pins q) else pins q

abbrev with_port : Option MapError → ℕ → (ℕ → Bool) → ℕ → Bool
with_port o i ports j = if i == j then unless_failed o true (ports j) else ports j

abbrev pub after_call : Call → Option MapError → Held → Held
after_call load_objects o h = record h { objects = unless_failed o true h.objects }
after_call close_objects o h = record h { objects = false }
after_call make_dir o h = h
after_call remove_dir o h = h
after_call (remove p) o h = record h { pins = with_pin o p none h.pins }
after_call (pin_map t) o h = record h { pins = with_pin o (map_pin t) (some this_run) h.pins }
after_call (attach uplink index mode) o h = record h {
  uplink_open = unless_failed o true h.uplink_open;
}
after_call (attach downlink index mode) o h = record h {
  downlink_open = unless_failed o true h.downlink_open;
}
after_call (pin_link side) o h = record h {
  pins = with_pin o (link_pin side) (some this_run) h.pins;
}
after_call (unpin_link side) o h = record h { pins = with_pin o (link_pin side) none h.pins }
after_call (close_link uplink) o h = record h { uplink_open = false }
after_call (close_link downlink) o h = record h { downlink_open = false }
after_call (put_port index) o h = record h { ports = with_port o index h.ports }
after_call (load_pinned_link side) o h = h
after_call (close_pinned_link side) o h = h

abbrev pub after : Held → Trace → Held
after h [] = h
after h ((c, o) ∷ tr) = after_call c o (after h tr)

-- a process that has just started
abbrev pub started : (Pin → Option Owner) → Held
started pins = record {
  objects = false;
  uplink_open = false;
  downlink_open = false;
  pins = pins;
  ports = λ i. false;
}

abbrev pub is_pinned : Option Owner → Bool
is_pinned none = false
is_pinned (some owner) = true

-- the program stays attached as long as its link is open or pinned
abbrev pub uplink_attached : Held → Bool
uplink_attached h = h.uplink_open || is_pinned (h.pins (link_pin uplink))

abbrev pub downlink_attached : Held → Bool
downlink_attached h = h.downlink_open || is_pinned (h.pins (link_pin downlink))
