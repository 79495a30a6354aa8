-- ===== src/Switch/Invariant.antt =====
-- Frames keep the switch well formed, and so does every run of a hub.
use uml_kernel_build.Common.{
  ℕ, ◌-◌, ◌≤◌, ◌≡◌, inl, inr, refl, Bool, false, List, [], ◌∷◌, ◌++◌, arith, ltb, if◌then◌else◌,
  Bool-cases, Option-cases, nat_eq, bytes_eq, length, length-append, Bytes, lookup, insert,
  All-insert, All-erase,
}
use uml_kernel_build.Switch.{
  Port, port_beq_iff, port_eq, is_peer, out_queue, mac_ttl, MacEntry, PortState, Switch, new,
  add_port, remove_port, add_peer, writer_step, is_multicast, learn, lookup_mac, enqueue, emit,
  targets, enqueue_all, flood, forward,
}
use uml_kernel_build.Switch.Ports.{
  IsSwitch, new-IsSwitch, write-IsSwitch, remove_port-IsSwitch, add_port-IsSwitch,
  add_peer-IsSwitch, writer_step-IsSwitch,
}

-- Both writes of `learn` leave the same entry.
pub learn_lem :
    (now : ℕ) (mac : Bytes) (from : Port) (s : Switch)
    → learn now mac from s ≡ (
        if is_multicast mac
        then s
        else record s { macs = insert mac (record { port = from; seen = now }) s.macs })
unfolding learn
learn_lem now mac from s = elim (Option-cases (lookup mac s.macs)) [
  | inl e ↦ rw (e, learn) refl
  | inr (entry, e) ↦ ground (arith, port_beq_iff entry.port from)
]

pub learn-IsSwitch :
    (now : ℕ) (mac : Bytes) (from : Port) {s : Switch}
    → IsSwitch s
    → IsSwitch (learn now mac from s)
learn-IsSwitch now mac from {s} v = rw learn_lem (elim (Bool-cases (is_multicast mac)) [
  | inl y ↦ rw y v
  | inr n ↦ rw n (record {
    unicast =
        All-insert (λ (e : Bytes × MacEntry). is_multicast e.0 ≡ false) mac _ s.macs n v.unicast;
    fits = v.fits;
    keys = v.keys;
    counted = v.counted;
  })
])

lookup_mac-IsSwitch :
    (now : ℕ) (mac : Bytes) {s : Switch} → IsSwitch s → IsSwitch (lookup_mac now mac s).1
unfolding lookup_mac
lookup_mac-IsSwitch now mac {s} v = elim (Option-cases (lookup mac s.macs)) [
  | inl e ↦ rw (e, lookup_mac) v
  | inr (entry, e) ↦ elim (Bool-cases (ltb mac_ttl (now - entry.seen))) [
    | inr n ↦ rw (e, lookup_mac) (rw n v)
    | inl y ↦
        rw (e, lookup_mac)
          (rw y (record {
            unicast =
                All-erase (λ (e : Bytes × MacEntry). is_multicast e.0 ≡ false) mac s.macs v.unicast;
            fits = v.fits;
            keys = v.keys;
            counted = v.counted;
          }))
  ]
]

enqueue-IsSwitch :
    (p : Port) (frame : Bytes) {s : Switch} → IsSwitch s → IsSwitch (enqueue p frame s)
unfolding enqueue
enqueue-IsSwitch p frame {s} v = elim (Option-cases (lookup p s.ports)) [
  | inl e ↦ rw (e, enqueue) v
  | inr (pt, e) ↦ elim (Bool-cases (ltb (length pt.out) out_queue)) [
    | inl y ↦
        let long : length (pt.out ++ (frame ∷ [])) ≤ out_queue =
          ground (arith, length-append pt.out (frame ∷ [])) in
        rw (e, enqueue)
          (rw y (write-IsSwitch s p pt (record pt { out = pt.out ++ (frame ∷ []) }) v e long))
    | inr n ↦
        rw (e, enqueue)
          (rw n (record { unicast = v.unicast; fits = v.fits; keys = v.keys; counted = v.counted }))
  ]
]

enqueue_all-IsSwitch :
    (ts : List (Port × PortState)) (frame : Bytes) {s : Switch}
    → IsSwitch s
    → IsSwitch (enqueue_all ts frame s)
unfolding enqueue_all
enqueue_all-IsSwitch [] frame v = v
enqueue_all-IsSwitch ((p, _) ∷ ts) frame v =
    enqueue_all-IsSwitch ts frame (enqueue-IsSwitch p frame v)

emit-IsSwitch : (p : Port) (frame : Bytes) {s : Switch} → IsSwitch s → IsSwitch (emit p frame s).1
unfolding emit
emit-IsSwitch p frame {s} v = ground (arith, enqueue-IsSwitch p frame v)

flood-IsSwitch :
    (from : Port) (frame : Bytes) {s : Switch} → IsSwitch s → IsSwitch (flood from frame s).1
unfolding flood
flood-IsSwitch from frame {s} v =
    ground (arith, enqueue_all-IsSwitch (targets from s.ports) frame v)

pub forward-IsSwitch :
    (now : ℕ) (from : Port) (frame : Bytes) {s : Switch}
    → IsSwitch s
    → IsSwitch (forward now from frame s).1
unfolding forward
forward-IsSwitch now from frame {s} v =
    grind (arith, flood-IsSwitch, emit-IsSwitch, lookup_mac-IsSwitch, learn-IsSwitch)

-- What the goroutines of a hub do to the switch, in any order: the uplink and the guest are
-- registered, peers join, wires and writers fail, writers take frames, and frames arrive.
pub data Step : Switch → Switch → Type 0 where
  register : {s : Switch} (p : Port) (sink : ℕ) → is_peer p ≡ false → Step s (add_port p sink s)
  join : {s : Switch} (sink : ℕ) → Step s (add_peer sink s).1
  leave : {s : Switch} (p : Port) → Step s (remove_port p s)
  write : {s : Switch} (p : Port) (failed : Bool) → Step s (writer_step p failed s).1
  arrive :
      {s : Switch} (now : ℕ) (from : Port) (frame : Bytes) → Step s (forward now from frame s).1

pub data Reach : Switch → Type 0 where
  start : Reach new
  next : {s t : Switch} → Reach s → Step s t → Reach t

Step-IsSwitch : {s t : Switch} → Step s t → IsSwitch s → IsSwitch t
Step-IsSwitch (register p sink h) v = add_port-IsSwitch p sink h v
Step-IsSwitch (join sink) v = add_peer-IsSwitch sink v
Step-IsSwitch (leave p) v = remove_port-IsSwitch p v
Step-IsSwitch (write p failed) v = writer_step-IsSwitch p failed v
Step-IsSwitch (arrive now from frame) v = forward-IsSwitch now from frame v

-- In every state that a switch can get into, only unicast addresses are learned, no queue is longer
-- than 1024, every peer port is below 32, no port is registered twice, and the counter that decides
-- between inline and queued sending is the number of the peer ports.
pub Reach-IsSwitch : {s : Switch} → Reach s → IsSwitch s
Reach-IsSwitch start = new-IsSwitch
Reach-IsSwitch (next r st) = Step-IsSwitch st (Reach-IsSwitch r)
