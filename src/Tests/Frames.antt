-- ===== src/Tests/Frames.antt =====
-- The switch at concrete inputs.
use uml_kernel_build.Common.{
  ℕ, zero, suc, ◌<◌, ◌≡◌, ◌≢◌, refl, none, [], ◌∷◌, ◌++◌, arith, nat_eq, bytes_eq, Bytes, Dict,
  lookup, insert, erase,
}
use uml_kernel_build.Switch.{
  pos, Port, port_eq, uplink, local, MacEntry, PortState, Switch, new, add_port, forget,
  remove_port, free_port, add_peer, writer_step, is_multicast, learn, lookup_mac, enqueue, emit,
  targets, enqueue_all, flood, forward,
}
use uml_kernel_build.Switch.Ports.{IsSwitch}
use uml_kernel_build.Switch.Invariant
use uml_kernel_build.Switch.Invariant.{Reach, Step, register, join, arrive, start, next}
use uml_kernel_build.Switch.Frames.{Untouched}
use uml_kernel_build.Switch.Learning
use uml_kernel_build.Switch.Learning.{Given}
use uml_kernel_build.Startup.{to_hub}
use uml_kernel_build.Elect.{Lease, encode_beacon}
use uml_kernel_build.Fleet.Peer.{PeerState, snoop, lease_map, hub_silent}
use uml_kernel_build.Hub.Heartbeat
use uml_kernel_build.Hub.Guests
use uml_kernel_build.Fleet.Wire.{Wire, guest_frame, wire_event}
use uml_kernel_build.Switch.Reader.{read_frames}
use uml_kernel_build.Elect.{is_beacon}
use uml_kernel_build.Common.{true, some}
use uml_kernel_build.Hub.Heartbeat.{Handed, send_beacon}
use uml_kernel_build.Startup.Mac.{vde_mac}
use uml_kernel_build.Common.{take, false, List}

switches : Unit {0}
unfolding add_port remove_port forget free_port add_peer writer_step is_multicast learn lookup_mac
    enqueue emit targets enqueue_all flood forward lookup insert erase new
switches = tt

abbrev mac_a : Bytes
mac_a = 2 ∷ 0 ∷ 0 ∷ 0 ∷ 0 ∷ 1 ∷ []

abbrev mac_b : Bytes
mac_b = 2 ∷ 0 ∷ 0 ∷ 0 ∷ 0 ∷ 2 ∷ []

abbrev all_ones : Bytes
all_ones = 0xff ∷ 0xff ∷ 0xff ∷ 0xff ∷ 0xff ∷ 0xff ∷ []

-- Destination, source and type.
abbrev shout : Bytes
shout = all_ones ++ (mac_a ++ (8 ∷ 0 ∷ []))

abbrev answer : Bytes
answer = mac_a ++ (mac_b ++ (8 ∷ 0 ∷ []))

-- A hub with its two ports and one peer.
abbrev hub_switch : Switch
hub_switch = record {
  macs = [];
  ports =
      (uplink, record { sink = 1; out = [] })
      ∷ (local, record { sink = 2; out = [] })
      ∷ (pos 0, record { sink = 3; out = [] })
      ∷ [];
  drops = 0;
  peers = pos 1;
}

built : (add_peer 3 (add_port local 2 (add_port uplink 1 new))).1 ≡ hub_switch
unfolding switches
built = refl

abbrev reached : Reach hub_switch
unfolding switches
reached = next (next (next start (register uplink 1 refl)) (register local 2 refl)) (join 3)

-- A broadcast from the guest is queued for the two other ports.
flooded :
    (forward 9 local shout hub_switch).1.ports
    ≡ (uplink, record { sink = 1; out = shout ∷ [] })
      ∷ (local, record { sink = 2; out = [] })
      ∷ (pos 0, record { sink = 3; out = shout ∷ [] })
      ∷ []
unfolding switches
flooded = refl

Reach-IsSwitch_example : IsSwitch hub_switch
unfolding reached switches
Reach-IsSwitch_example = Invariant.Reach-IsSwitch reached

forward_reply_example :
    Given local
      (record { sink = 2; out = [] })
      answer
      false
      (forward 12 (pos 0) answer (forward 9 local shout hub_switch).1)
    × Untouched uplink
        (forward 9 local shout hub_switch).1
        (forward 12 (pos 0) answer (forward 9 local shout hub_switch).1)
unfolding is_multicast switches
forward_reply_example =
    Learning.forward_reply 9 12 local (pos 0) uplink (record { sink = 2; out = [] }) shout answer
      hub_switch (omega arith) (omega arith) refl refl (λ e. ground arith) (omega arith)
      (λ e. ground arith) (λ e. ground arith) refl (omega arith)

abbrev old_entry : MacEntry
old_entry = record { port = local; seen = 9 }

abbrev late_switch : Switch
late_switch = record hub_switch { macs = (mac_a, old_entry) ∷ [] }

none_below : (m : ℕ) → m < 0 → lookup (pos m) hub_switch.ports ≢ none
none_below m h = absurd (omega arith)

one_below : (m : ℕ) → m < 1 → lookup (pos m) hub_switch.ports ≢ none
unfolding lookup
one_below zero h = λ e. cc
one_below (suc m) h = absurd (omega arith)

-- A switch on which every number is taken.
abbrev crowd : ℕ → Dict Port PortState
crowd zero = []
crowd (suc n) = (pos n, record { sink = n; out = [] }) ∷ crowd n

abbrev crowded : Switch
crowded = record { macs = []; ports = crowd 32; drops = 0; peers = pos 32 }

abbrev one_lease : List Lease
one_lease = record { mac = mac_a; ip = 10 ∷ 0 ∷ 2 ∷ 15 ∷ [] } ∷ []

abbrev new_peer : PeerState
new_peer = record { saw_beacon = false; last_beacon = 0; leases = [] }

send_beacon_heard_example :
    Handed
      (pos 0)
      3
      (encode_beacon vde_mac 7 one_lease)
      false
      (send_beacon 9 7 one_lease hub_switch)
    × ((snoop 10 (encode_beacon vde_mac 7 one_lease) new_peer).0 ≡ none)
    × ((snoop 10 (encode_beacon vde_mac 7 one_lease) new_peer).1.leases
        ≡ lease_map (take 32 one_lease))
    × (hub_silent 1_000_000_000 (snoop 10 (encode_beacon vde_mac 7 one_lease) new_peer).1 ≡ false)
unfolding reached switches
send_beacon_heard_example =
    Heartbeat.send_beacon_heard 9 10 1_000_000_000 7 one_lease (pos 0)
      (record { sink = 3; out = [] }) false hub_switch new_peer (Invariant.Reach-IsSwitch reached)
      (ground arith) refl refl (omega arith) (record { mac_size = refl; ip_size = refl }, tt)
      (omega arith)

-- The hub, as a peer's wire sees it: the frame comes in on port 1.
abbrev joined_wire : Wire
joined_wire = record { peer = true; switch = hub_switch }

guest_to_guest_example :
    (wire_event (guest_frame 1 shout true) joined_wire ≡ (to_hub shout ∷ [], joined_wire))
    × Handed (pos 0) 3 shout false (read_frames (pos 1) ((9, shout) ∷ []) hub_switch)
    × (snoop 10 shout new_peer ≡ (some shout, new_peer))
unfolding reached switches is_beacon
guest_to_guest_example =
    Guests.guest_to_guest 1 9 10 shout joined_wire (pos 1) (pos 0) (record { sink = 3; out = [] })
      false hub_switch new_peer (omega arith) refl refl refl (Invariant.Reach-IsSwitch reached)
      (ground arith) refl refl
