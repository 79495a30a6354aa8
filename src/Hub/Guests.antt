-- ===== src/Hub/Guests.antt =====
-- From the guest of one peer to the guest of another: the wire of the first (Fleet/Wire), the hub's reader
-- and switch, and the reader of the second (Fleet/Peer).
use uml_kernel_build.Common.{
  ℕ, ◌≤◌, ◌≡◌, ◌≢◌, refl, ap, Bool, true, false, some, List, [], ◌∷◌, append-nil, arith, ltb, ◌==◌,
  nat_eq, bytes_eq, length, Bytes, slice, lookup,
}
use uml_kernel_build.Elect.{is_beacon}
use uml_kernel_build.Fleet.Peer.{PeerState, snoop}
use uml_kernel_build.Fleet.Wire.{Wire, guest_frame, wire_event}
use uml_kernel_build.Hub.Heartbeat.{Handed, flood-Handed, forward_broadcast}
use uml_kernel_build.Startup.{to_hub, wire_step}
use uml_kernel_build.Switch.{Port, port_eq, PortState, Switch, Sent, is_multicast, learn, flood}
use uml_kernel_build.Switch.Ports.{IsSwitch}
use uml_kernel_build.Switch.Invariant.{learn-IsSwitch}
use uml_kernel_build.Switch.Frames.{learn-ports}
use uml_kernel_build.Switch.Reader.{read_frames}

relayed :
    (now : ℕ) (frame : Bytes) (w : Wire)
    → 14 ≤ length frame
    → w.peer ≡ true
    → wire_event (guest_frame now frame true) w ≡ (to_hub frame ∷ [], w)
unfolding wire_event wire_step
relayed now frame w long on =
    let l : ltb (length frame) 14 ≡ false = ground arith in rw (on, l) refl

read_one :
    (now : ℕ) (p : Port) (frame : Bytes) (s : Switch)
    → 14 ≤ length frame
    → is_multicast (slice 0 6 frame) ≡ true
    → read_frames p ((now, frame) ∷ []) s ≡ flood p frame (learn now (slice 6 12 frame) p s)
unfolding read_frames
read_one now p frame s long multi =
    let some_bytes : (length frame == 0) ≡ false = ground arith in
    let l : ltb (length frame) 14 ≡ false = ground arith in
    let f = forward_broadcast now p frame s long multi in
    let x = flood p frame (learn now (slice 6 12 frame) p s) in
    rw (some_bytes, l, f, read_frames) (ap (λ (sents : List Sent). (sents, x.1)) (append-nil x.0))

-- The guest of one peer sends a frame to several addresses, no heartbeat, while its instance has a hub
-- that takes it. It goes to the hub and not to the own switch; the hub's reader of that peer's wire hands it to every other
-- peer whose queue is empty, at once or as the next one of the port's writer; and the instance that
-- gets it sends its guest that very frame.
pub guest_to_guest :
    (sent now later : ℕ) (frame : Bytes) (w : Wire) (p q : Port) (pt : PortState) (failed : Bool)
    (s : Switch) (st : PeerState)
    → 14 ≤ length frame
    → is_multicast (slice 0 6 frame) ≡ true
    → is_beacon frame ≡ false
    → w.peer ≡ true
    → IsSwitch s
    → q ≢ p
    → lookup q s.ports ≡ some pt
    → pt.out ≡ []
    → (wire_event (guest_frame sent frame true) w ≡ (to_hub frame ∷ [], w))
      × Handed q pt.sink frame failed (read_frames p ((now, frame) ∷ []) s)
      × (snoop later frame st ≡ (some frame, st))
unfolding snoop
guest_to_guest sent now later frame w p q pt failed s st long multi plain on v ne at empty =
    let src = slice 6 12 frame in
    let at' : lookup q (learn now src p s).ports ≡ some pt = rw (learn-ports now src p s) at in
    let l : ltb (length frame) 14 ≡ false = ground arith in
    (
      relayed sent frame w long on,
      rw (read_one now p frame s long multi) (
          flood-Handed p q pt frame failed (learn now src p s) (learn-IsSwitch now src p v) ne at'
            empty),
      rw (l, plain, snoop) refl,
    )
