-- ===== src/Switch/History.antt =====
-- What the switch promises: where a frame goes, from the frames that have arrived and the ports that
-- have gone, without a table of addresses.
pub mod Tracking
pub mod Refines
use uml_kernel_build.Common.{
  ℕ, ◌-◌, ◌≤◌, ◌≡◌, Bool, true, false, not, ◌&&◌, Option, none, some, List, [], ◌∷◌, ltb,
  if◌then◌else◌, nat_eq, bytes_eq, length, Bytes, bytes_beq, slice, lookup,
}
use uml_kernel_build.Switch.{
  Port, port_beq, port_beq_iff, port_eq, mac_ttl, MacEntry, PortState, Switch, Sent, new, add_port,
  forget, remove_port, add_peer, free_port, max_peers, writer_step, is_multicast, learn, lookup_mac,
  enqueue, emit, targets, enqueue_all, flood, forward,
}
use uml_kernel_build.Switch.Frames.{
  learned, found, forward_short, forward_multicast, forward_unknown, forward_known, forward_hairpin,
}
use uml_kernel_build.Switch.Learning.{
  learn-macs, learn-other, lookup_mac-fresh, lookup_mac-stale, flood-macs, emit-macs,
}
use uml_kernel_build.Switch.Reader.{remove_port-macs}
use uml_kernel_build.Switch.Invariant.{learn_lem}

-- What has happened at the switch that bears on where addresses are.
pub data Event : Type 0 where
  arrived : (now : ℕ) (from : Port) (frame : Bytes) → Event
  left : (p : Port) → Event

-- The latest event comes first.
unfoldable pub clock : List Event → ℕ
clock [] = 0
clock (arrived now from frame ∷ es) = now
clock (left p ∷ es) = clock es

unfoldable pub teaches : Bytes → Bytes → Bool
teaches frame mac =
    not (ltb (length frame) 14)
    && not (is_multicast (slice 6 12 frame))
    && bytes_beq (slice 6 12 frame) mac

unfoldable pub unless_at : Port → Option MacEntry → Option MacEntry
unless_at p none = none
unless_at p (some e) = if port_beq e.port p then none else some e

-- The port and time of the last frame from an address, none if that port has gone since.
unfoldable pub where_is : Bytes → List Event → Option MacEntry
unfolding teaches unless_at
where_is mac [] = none
where_is mac (arrived now from frame ∷ es) =
    let before = where_is mac es in
    if teaches frame mac then some (record { port = from; seen = now }) else before
where_is mac (left p ∷ es) = unless_at p (where_is mac es)

-- What becomes of a frame.
pub data Decision : Type 0 where
  kept : Decision
  directed : (p : Port) → Decision
  flooded : Decision

unfoldable pub route : ℕ → Port → Option MacEntry → Decision
route now from none = flooded
route now from (some e) =
    if ltb mac_ttl (now - e.seen)
    then flooded
    else if port_beq e.port from
    then kept
    else directed e.port

unfoldable pub decide : ℕ → Port → Bytes → List Event → Decision
unfolding where_is route
decide now from frame es =
    if ltb (length frame) 14
    then kept
    else if is_multicast (slice 0 6 frame)
    then flooded
    else route now from (where_is (slice 0 6 frame) (arrived now from frame ∷ es))

unfoldable pub carry : Decision → Port → Bytes → Switch → List Sent × Switch
carry kept from frame s = ([], s)
carry (directed p) from frame s = emit p frame s
carry flooded from frame s = flood from frame s

-- The switch after a history; the operations that are no events do not bear on the addresses.
pub data Runs : List Event → Switch → Type 0 where
  begin : Runs [] new
  register :
      {es : List Event} {s : Switch} (p : Port) (sink : ℕ) → Runs es s → Runs es (add_port p sink s)
  join : {es : List Event} {s : Switch} (sink : ℕ) → Runs es s → Runs es (add_peer sink s).1
  write : {es : List Event} {s : Switch} (p : Port) → Runs es s → Runs es (writer_step p false s).1
  fail :
      {es : List Event} {s : Switch} (p : Port) (pt : PortState) (frame : Bytes) (rest : List Bytes)
      → Runs es s
      → lookup p s.ports ≡ some pt
      → pt.out ≡ frame ∷ rest
      → Runs (left p ∷ es) (writer_step p true s).1
  leave :
      {es : List Event} {s : Switch} (p : Port) → Runs es s → Runs (left p ∷ es) (remove_port p s)
  arrive :
      {es : List Event} {s : Switch} (now : ℕ) (from : Port) (frame : Bytes)
      → Runs es s
      → clock es ≤ now
      → Runs (arrived now from frame ∷ es) (forward now from frame s).1
