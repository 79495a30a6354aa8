-- ===== src/Switch.antt =====
-- vdeplug-go/internal/vswitch/vswitch.go: the MAC-learning switch. `Switch.mu` makes the accesses of
-- one critical section a step; `forward` runs its sections one after the other, with no other
-- goroutine between them.
pub mod Ports
pub mod Peers
pub mod Invariant
pub mod Frames
pub mod Learning
pub mod Flood
pub mod Reader
pub mod History
pub use uml_kernel_build.Common.{ℤ, pos, negsuc}
use uml_kernel_build.Common.{
  ℕ, zero, suc, ◌+◌, ◌-◌, ◌*◌, ◌%◌, ◌^◌, bit_and, ◌≡◌, ◌↔◌, Bool, true, false, not, Option, none,
  some, List, [], ◌∷◌, ◌++◌, arith, ltb, ◌==◌, if◌then◌else◌, Eq, nat_eq, bytes_eq, length, Bytes,
  byte_at, slice, Dict, lookup, insert, erase,
}

-- The peers' ports are 0, 1, …
abbrev pub Port : Type 0
Port = ℤ

abbrev pub uplink : Port
uplink = negsuc 0

abbrev pub local : Port
local = negsuc 1

abbrev pub max_peers : ℕ
max_peers = 32

abbrev pub out_queue : ℕ
out_queue = 1024

-- 300 seconds, in nanoseconds.
abbrev pub mac_ttl : ℕ
mac_ttl = 300 * 1_000_000_000

abbrev pub port_beq : Port → Port → Bool
port_beq (pos a) (pos b) = a == b
port_beq (negsuc a) (negsuc b) = a == b
port_beq _ _ = false

pub port_beq_iff : (a b : Port) → (port_beq a b ≡ true) ↔ (a ≡ b)
port_beq_iff (pos a) (pos b) = ground arith
port_beq_iff (negsuc a) (negsuc b) = ground arith
port_beq_iff (pos a) (negsuc b) = ground arith
port_beq_iff (negsuc a) (pos b) = ground arith

instance abbrev pub port_eq : Eq Port
port_eq = record { beq = port_beq; beq_iff = port_beq_iff }

-- `p >= 0`
abbrev pub is_peer : Port → Bool
is_peer (pos n) = true
is_peer (negsuc n) = false

abbrev pub inc : ℤ → ℤ
inc (pos n) = pos (suc n)
inc (negsuc zero) = pos 0
inc (negsuc (suc n)) = negsuc n

abbrev pub dec : ℤ → ℤ
dec (pos zero) = negsuc 0
dec (pos (suc n)) = pos n
dec (negsuc n) = negsuc (suc n)

pub record MacEntry : Type 0 where
  pub port : Port
  pub seen : ℕ

-- A sink is known by a number; what it does with a frame is outside the switch.
pub record PortState : Type 0 where
  pub sink : ℕ
  pub out : List Bytes

pub record Switch : Type 0 where
  pub macs : Dict Bytes MacEntry
  pub ports : Dict Port PortState
  pub drops : ℕ
  pub peers : ℤ

-- A frame handed to a sink inline.
pub record Sent : Type 0 where
  pub port : Port
  pub sink : ℕ
  pub frame : Bytes

unfoldable pub new : Switch
new = record { macs = []; ports = []; drops = 0; peers = pos 0 }

unfoldable pub add_port : Port → ℕ → Switch → Switch
add_port p sink s = record s { ports = insert p (record { sink = sink; out = [] }) s.ports }

-- The loop over `s.macs` in `RemovePort`.
unfoldable pub forget : Port → Dict Bytes MacEntry → Dict Bytes MacEntry
forget p [] = []
forget p ((mac, e) ∷ macs) = if port_beq e.port p then forget p macs else (mac, e) ∷ forget p macs

unfoldable pub remove_port : Port → Switch → Switch
remove_port p s = elim (lookup p s.ports) [
  | none ↦ record s { macs = forget p s.macs }
  | some _ ↦ record s {
    macs = forget p s.macs;
    ports = erase p s.ports;
    peers = if is_peer p then dec s.peers else s.peers;
  }
]

-- The loop of `AddPeer` from port `n` on, with `tries` numbers left.
unfoldable pub free_port : ℕ → ℕ → Dict Port PortState → Option ℕ
free_port zero n ports = none
free_port (suc tries) n ports = elim (lookup (pos n) ports) [
  | none ↦ some n
  | some _ ↦ free_port tries (n + 1) ports
]

-- `none` is the result (0, false).
unfoldable pub add_peer : ℕ → Switch → Option Port × Switch
add_peer sink s = elim (free_port max_peers 0 s.ports) [
  | none ↦ (none, s)
  | some n ↦ (
    some (pos n),
    record s {
      ports = insert (pos n) (record { sink = sink; out = [] }) s.ports;
      peers = inc s.peers;
    },
  )
]

-- One round of a port's writer goroutine: it takes the oldest frame and gives it to the sink, whose
-- answer is `failed`. On an error the port is removed.
unfoldable pub writer_step : Port → Bool → Switch → List Sent × Switch
writer_step p failed s = elim (lookup p s.ports) [
  | none ↦ ([], s)
  | some pt ↦ elim pt.out [
    | [] ↦ ([], s)
    | frame ∷ rest ↦
        let s' = record s { ports = insert p (record pt { out = rest }) s.ports } in
        (
          record { port = p; sink = pt.sink; frame = frame } ∷ [],
          if failed then remove_port p s' else s',
        )
  ]
]

unfoldable pub is_multicast : Bytes → Bool
is_multicast mac = not (bit_and (byte_at mac 0) 1 == 0)

unfoldable pub learn : ℕ → Bytes → Port → Switch → Switch
learn now mac from s =
    if is_multicast mac
    then s
    else let anew = insert mac (record { port = from; seen = now }) s.macs in
      elim (lookup mac s.macs) [
        | none ↦ record s { macs = anew }
        | some e ↦
            if port_beq e.port from
            then record s { macs = insert mac (record e { seen = now }) s.macs }
            else record s { macs = anew }
      ]

-- `lookup` of the source. An entry past its time is deleted.
unfoldable pub lookup_mac : ℕ → Bytes → Switch → Option Port × Switch
lookup_mac now mac s = elim (lookup mac s.macs) [
  | none ↦ (none, s)
  | some e ↦
      if ltb mac_ttl (now - e.seen)
      then (none, record s { macs = erase mac s.macs })
      else (some e.port, s)
]

-- The `select` on `pt.out <- buf`: the frame joins the queue, or it is dropped and counted.
unfoldable pub enqueue : Port → Bytes → Switch → Switch
enqueue p frame s = elim (lookup p s.ports) [
  | none ↦ s
  | some pt ↦
      if ltb (length pt.out) out_queue
      then record s { ports = insert p (record pt { out = pt.out ++ (frame ∷ []) }) s.ports }
      else record s { drops = (s.drops + 1) % 2 ^ 64 }
]

unfoldable pub emit : Port → Bytes → Switch → List Sent × Switch
emit p frame s = elim (lookup p s.ports) [
  | none ↦ ([], s)
  | some pt ↦
      if port_beq s.peers (pos 0)
      then (record { port = p; sink = pt.sink; frame = frame } ∷ [], s)
      else ([], enqueue p frame s)
]

-- The ports that a flood goes to, in some order; the source ranges over a map.
unfoldable pub targets : Port → Dict Port PortState → List (Port × PortState)
targets from [] = []
targets from ((p, pt) ∷ ports) =
    if port_beq p from then targets from ports else (p, pt) ∷ targets from ports

unfoldable pub enqueue_all : List (Port × PortState) → Bytes → Switch → Switch
enqueue_all [] frame s = s
enqueue_all ((p, _) ∷ ts) frame s = enqueue_all ts frame (enqueue p frame s)

unfoldable pub flood : Port → Bytes → Switch → List Sent × Switch
flood from frame s = elim (targets from s.ports) [
  | [] ↦ ([], s)
  | (p, pt) ∷ rest ↦ elim rest [
    | [] ↦ (record { port = p; sink = pt.sink; frame = frame } ∷ [], s)
    | _ ∷ _ ↦ ([], enqueue_all (targets from s.ports) frame s)
  ]
]

unfoldable pub forward : ℕ → Port → Bytes → Switch → List Sent × Switch
forward now from frame s =
    if ltb (length frame) 14
    then ([], s)
    else let s1 = learn now (slice 6 12 frame) from s in
      if is_multicast (slice 0 6 frame)
      then flood from frame s1
      else let (dst, s2) = lookup_mac now (slice 0 6 frame) s1 in
        elim dst [
          | none ↦ flood from frame s2
          | some p ↦ if port_beq p from then ([], s2) else emit p frame s2
        ]
