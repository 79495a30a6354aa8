-- ===== src/Hub/Heartbeat.antt =====
-- The hub's heartbeats, `sendBeacons` of vdeplug-go/main.go, from the switch to the peer that hears them.
use uml_kernel_build.Common.{
  ℕ, ◌+◌, ◌%◌, ◌^◌, ◌≤◌, ◌≡◌, ◌≢◌, ◌⊎◌, inl, inr, refl, Bool, true, false, Option, none, some, List,
  [], ◌∷◌, ◌++◌, arith, ltb, nat_eq, bytes_eq, length, take, All, Bytes, IsU32, slice, lookup,
}
use uml_kernel_build.Startup.Mac.{vde_mac}
use uml_kernel_build.Elect.{Lease, max_leases, encode_beacon}
use uml_kernel_build.Elect.RoundTrip.{IsLease, length-encode_beacon}
use uml_kernel_build.Fleet.Peer.{PeerState, lease_map, beacon_deadline, snoop, hub_silent}
use uml_kernel_build.Fleet.Peer.Handover.{snoop-encode_beacon}
use uml_kernel_build.Switch.{
  Port, port_eq, uplink, PortState, Switch, Sent, is_multicast, learn, flood, forward, writer_step,
}
use uml_kernel_build.Switch.Ports.{IsSwitch}
use uml_kernel_build.Switch.Invariant.{learn-IsSwitch}
use uml_kernel_build.Switch.Frames.{learn-ports}
use uml_kernel_build.Switch.Flood.{flood_reaches}

-- One heartbeat, at time `now`.
unfoldable pub send_beacon : ℕ → ℕ → List Lease → Switch → List Sent × Switch
send_beacon now seq leases s = forward now uplink (encode_beacon vde_mac seq leases) s

-- The loop: a round is its time with the pool's table, none without a pool.
unfoldable pub send_beacons :
    List (ℕ × Option (List Lease)) → ℕ → List Lease → Switch → List Sent × Switch
unfolding send_beacon
send_beacons [] seq leases s = ([], s)
send_beacons ((now, table) ∷ rounds) seq leases s =
    let known : List Lease = elim table [ none ↦ leases | some fresh ↦ fresh ] in
    let (sent, s1) = send_beacon now seq known s in
    let (more, s2) = send_beacons rounds ((seq + 1) % 2 ^ 32) known s1 in (sent ++ more, s2)

pub forward_broadcast :
    (now : ℕ) (from : Port) (frame : Bytes) (s : Switch)
    → 14 ≤ length frame
    → is_multicast (slice 0 6 frame) ≡ true
    → forward now from frame s ≡ flood from frame (learn now (slice 6 12 frame) from s)
unfolding forward
forward_broadcast now from frame s long multi =
    let l : ltb (length frame) 14 ≡ false = ground arith in rw (l, forward) (rw multi refl)

beacon_multicast :
    (src : Bytes) (seq : ℕ) (ls : List Lease)
    → is_multicast (slice 0 6 (encode_beacon src seq ls)) ≡ true
unfolding is_multicast encode_beacon
beacon_multicast src seq ls = refl

send_beacon-flood :
    (now seq : ℕ) (ls : List Lease) (s : Switch)
    → send_beacon now seq ls s
      ≡ flood uplink
          (encode_beacon vde_mac seq ls)
          (learn now (slice 6 12 (encode_beacon vde_mac seq ls)) uplink s)
unfolding send_beacon
send_beacon-flood now seq ls s =
    forward_broadcast now uplink (encode_beacon vde_mac seq ls) s
      (omega (arith, length-encode_beacon vde_mac seq ls)) (beacon_multicast vde_mac seq ls)

-- The port's sink gets the frame: at once, or as the next one of the port's writer.
pub Handed : Port → ℕ → Bytes → Bool → List Sent × Switch → Type 0
Handed q sink frame failed r =
    (r.0 ≡ record { port = q; sink = sink; frame = frame } ∷ [])
    ⊎ ((writer_step q failed r.1).0 ≡ record { port = q; sink = sink; frame = frame } ∷ [])

pub flood-Handed :
    (from q : Port) (pt : PortState) (frame : Bytes) (failed : Bool) (s : Switch)
    → IsSwitch s
    → q ≢ from
    → lookup q s.ports ≡ some pt
    → pt.out ≡ []
    → Handed q pt.sink frame failed (flood from frame s)
unfolding Handed writer_step
flood-Handed from q pt frame failed s v ne at empty =
    elim (flood_reaches from q pt frame s v ne at (rw empty (omega arith))) [
      | inl now ↦ inl now
      | inr queued ↦ inr (rw (queued, writer_step, empty) refl)
    ]

-- A hub sends a heartbeat with its lease table, and a peer's port has an empty queue. The peer is
-- handed the frame, at once or as the next one of the port's writer. When it arrives, the guest is not
-- sent it, the peer's table is the first 32 leases, and the hub is not given up in the three seconds
-- that follow.
pub send_beacon_heard :
    (now arrival later seq : ℕ) (ls : List Lease) (q : Port) (pt : PortState) (failed : Bool)
    (s : Switch) (st : PeerState)
    → IsSwitch s
    → q ≢ uplink
    → lookup q s.ports ≡ some pt
    → pt.out ≡ []
    → IsU32 seq
    → All IsLease ls
    → later ≤ arrival + beacon_deadline
    → Handed q pt.sink (encode_beacon vde_mac seq ls) failed (send_beacon now seq ls s)
      × ((snoop arrival (encode_beacon vde_mac seq ls) st).0 ≡ none)
      × ((snoop arrival (encode_beacon vde_mac seq ls) st).1.leases
          ≡ lease_map (take max_leases ls))
      × (hub_silent later (snoop arrival (encode_beacon vde_mac seq ls) st).1 ≡ false)
unfolding hub_silent
send_beacon_heard now arrival later seq ls q pt failed s st v ne at empty small sizes soon =
    let frame = encode_beacon vde_mac seq ls in
    let src = slice 6 12 frame in
    let heard = snoop-encode_beacon arrival seq vde_mac ls st small sizes in
    let at' : lookup q (learn now src uplink s).ports ≡ some pt =
      rw (learn-ports now src uplink s) at in
    (
      rw (send_beacon-flood now seq ls s) (
          flood-Handed uplink q pt frame failed (learn now src uplink s)
            (learn-IsSwitch now src uplink v) ne at' empty),
      rw heard refl,
      rw heard refl,
      rw heard (ground (arith, soon)),
    )
