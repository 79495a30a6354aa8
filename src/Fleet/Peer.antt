-- ===== src/Fleet/Peer.antt =====
-- The peer side of vdeplug-go/main.go: `runPeer` takes the hub's heartbeats out of the frames for the
-- guest and keeps the lease table; the watch gives a silent hub up.
pub mod Handover
pub mod Run
use uml_kernel_build.Common.{
  ℕ, ◌-◌, ◌*◌, Bool, true, ◌&&◌, Option, none, some, List, [], ◌∷◌, ltb, if◌then◌else◌, nat_eq,
  bytes_eq, length, Bytes, Dict, insert,
}
use uml_kernel_build.Elect.{Lease, Parsed, beacon, err, is_beacon, parse_beacon}

-- Nanoseconds.
abbrev pub beacon_interval : ℕ
beacon_interval = 1_000_000_000

abbrev pub beacon_deadline : ℕ
beacon_deadline = 3 * beacon_interval

pub record PeerState : Type 0 where
  pub saw_beacon : Bool
  pub last_beacon : ℕ
  pub leases : Dict Bytes Bytes

unfoldable pub insert_lease : Dict Bytes Bytes → List Lease → Dict Bytes Bytes
insert_lease m [] = m
insert_lease m (l ∷ ls) = insert_lease (insert l.mac l.ip m) ls

unfoldable pub lease_map : List Lease → Dict Bytes Bytes
unfolding insert_lease
lease_map ls = insert_lease [] ls

-- A frame from the hub at time `now`: what the guest is sent, if anything, and the state after it.
unfoldable pub snoop : ℕ → Bytes → PeerState → Option Bytes × PeerState
snoop now frame st =
    let seen = record st { last_beacon = now; saw_beacon = true } in
    if ltb (length frame) 14
    then (none, st)
    else if is_beacon frame
    then elim (parse_beacon frame) [
      | beacon _ ls ↦ (none, record seen { leases = lease_map ls })
      | err _ ↦ (none, seen)
    ]
    else (some frame, st)

-- One round of the heartbeat watch: is the hub given up?
unfoldable pub hub_silent : ℕ → PeerState → Bool
hub_silent now st = st.saw_beacon && ltb beacon_deadline (now - st.last_beacon)
