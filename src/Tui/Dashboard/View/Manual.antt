-- ===== src/Tui/Dashboard/View/Manual.antt =====
-- The manual that `renderHelp` shows.
use ebpf_packet_router.Prelude.{List, [], ◌∷◌, ◌++◌}
use ebpf_packet_router.Std.Text.{Bytes, codes}

abbrev unlines : List Bytes → Bytes
unlines [] = []
unlines (l ∷ []) = l
unlines (l ∷ m ∷ ls) = l ++ 10 ∷ unlines (m ∷ ls)

unfoldable pub manual : Bytes
manual = unlines (
    codes "WHAT THIS IS"
    ∷ codes "  A per-subscriber view/edit surface over the XDP data plane. Unlike a normal"
    ∷ codes "  router (which sees GTP-U as opaque UDP/2152), this acts on an individual"
    ∷ codes "  subscriber by TEID or UE IP, in the kernel, before the network stack."
    ∷ []
    ∷ codes "PANELS"
    ∷ codes "  teid_map / ueip_map   forwarding rules (ACTION/IFINDEX/PACKETS/BYTES/PPS)"
    ∷ codes "  enforcement           per-subscriber rate-limit / quarantine policy:"
    ∷ codes "                        CAP=cap pps  DROPPED=dropped by cap  QUAR=thr/secs"
    ∷ codes "                        STATE=armed | HELD (currently blocked)"
    ∷ codes "  global verdict        PASS / DROP / REDIRECT totals"
    ∷ []
    ∷ codes "KEYS"
    ∷ codes "  tab            switch focus between the teid and ueip panels"
    ∷ codes "  up/down (k/j)  move the selection in the focused panel"
    ∷ codes "  a              add a rule"
    ∷ codes "  e / enter      edit the selected rule (incl. its rate-limit/quarantine)"
    ∷ codes "  d / x          delete the selected rule"
    ∷ codes "  p              start / stop the traffic ping (output in the traffic pane)"
    ∷ codes "  t              add default test rules (populate the panels)"
    ∷ codes "  c              save a snapshot to /tmp/gtp-dashboard-snapshot.txt"
    ∷ codes "  ? / h          show this manual"
    ∷ codes "  q / ctrl+c     quit"
    ∷ []
    ∷ codes "PACKET OPERATIONS (rule actions)"
    ∷ codes "  drop      discard the subscriber's traffic"
    ∷ codes "  decap     strip GTP-U, forward the inner packet"
    ∷ codes "  encap     wrap a bare packet in a fresh GTP-U tunnel"
    ∷ codes "  redirect  MAC-rewrite and send out another interface"
    ∷ codes "  plus rate-limit (cap pps) and quarantine (auto hard-block) on any rule"
    ∷ []
    ∷ codes "Press any key to return."
    ∷ [])
