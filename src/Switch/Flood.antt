-- ===== src/Switch/Flood.antt =====
-- A flood reaches every other port.
use uml_kernel_build.Common.{
  ◌<◌, ◌≡◌, ◌≢◌, ◌⊎◌, inl, inr, refl, ap, ◌∙◌, false, none, some, List, [], ◌∷◌, ◌++◌, arith,
  Bool-cases, List-cases, nat_eq, bytes_eq, length, Bytes, Dict, lookup, erase, lookup-insert,
  lookup-erase, NodupKeys, NodupKeys-erase,
}
use uml_kernel_build.Switch.{
  Port, port_beq, port_beq_iff, port_eq, out_queue, PortState, Switch, Sent, enqueue, targets,
  enqueue_all, flood,
}
use uml_kernel_build.Switch.Ports.{IsSwitch}
use uml_kernel_build.Switch.Frames.{enqueue_other, enqueue_all_other, Missing}

targets-erase : (from : Port) (m : Dict Port PortState) → targets from m ≡ erase from m
unfolding targets erase
targets-erase from [] = refl
targets-erase from ((p, pt) ∷ m) = ground (arith, targets-erase from m)

none-Missing : (q : Port) (ts : Dict Port PortState) → lookup q ts ≡ none → Missing q ts
unfolding lookup
none-Missing q [] h = tt
none-Missing q ((p, pt) ∷ ts) h = ground (arith, port_beq_iff p q, none-Missing q ts)

enqueue_self :
    (q : Port) (pt : PortState) (frame : Bytes) (s : Switch)
    → lookup q s.ports ≡ some pt
    → length pt.out < out_queue
    → lookup q (enqueue q frame s).ports ≡ some (record pt { out = pt.out ++ (frame ∷ []) })
unfolding enqueue
enqueue_self q pt frame s h room = ground (
  arith,
  port_beq_iff q q,
  lookup-insert q q (record pt { out = pt.out ++ (frame ∷ []) }) s.ports,
)

enqueue_all_at :
    (q : Port) (pt pt' : PortState) (ts : Dict Port PortState) (frame : Bytes) (s : Switch)
    → NodupKeys ts
    → lookup q ts ≡ some pt'
    → lookup q s.ports ≡ some pt
    → length pt.out < out_queue
    → lookup q (enqueue_all ts frame s).ports ≡ some (record pt { out = pt.out ++ (frame ∷ []) })
unfolding enqueue_all lookup
enqueue_all_at q pt pt' [] frame s n h at room = cc
enqueue_all_at q pt pt' ((p, u) ∷ ts) frame s n h at room = elim (Bool-cases (port_beq p q)) [
  | inl y ↦
      let same : p ≡ q = (port_beq_iff p q).0 y in
      let none_left : lookup q ts ≡ none = rw same at n.0 in
      rw same (
        enqueue_all_other q ts frame (enqueue q frame s) (none-Missing q ts none_left)
        ∙ enqueue_self q pt frame s at room)
  | inr x ↦
      let ne : p ≢ q = λ e. cc ((port_beq_iff p q).1 e) in
      enqueue_all_at q pt pt' ts frame (enqueue p frame s) n.1 (ground arith)
        (enqueue_other p q frame s ne ∙ at) room
]

-- The only target is the port that is looked for.
only :
    (q p : Port) (u pt : PortState) (frame : Bytes)
    → lookup q ((p, u) ∷ []) ≡ some pt
    → ◌≡◌ {A = List Sent}
        (record { port = p; sink = u.sink; frame = frame } ∷ [])
        (record { port = q; sink = pt.sink; frame = frame } ∷ [])
unfolding lookup
only q p u pt frame h = ground (arith, port_beq_iff p q)

-- A flooded frame reaches every port but its own that has room in its queue: the port is either the
-- only one and is sent the frame inline, or finds it at the end of its queue.
pub flood_reaches :
    (from q : Port) (pt : PortState) (frame : Bytes) (s : Switch)
    → IsSwitch s
    → q ≢ from
    → lookup q s.ports ≡ some pt
    → length pt.out < out_queue
    → ((flood from frame s).0 ≡ record { port = q; sink = pt.sink; frame = frame } ∷ [])
      ⊎ (lookup q (flood from frame s).1.ports ≡ some (record pt { out = pt.out ++ (frame ∷ []) }))
unfolding flood
flood_reaches from q pt frame s v ne at room =
    let other : port_beq from q ≡ false = ground (arith, port_beq_iff from q) in
    let there : lookup q (targets from s.ports) ≡ some pt =
      rw targets-erase (lookup-erase from q s.ports ∙ rw other at) in
    let keys : NodupKeys (targets from s.ports) =
      rw targets-erase (NodupKeys-erase from s.ports v.keys) in
    let queued = enqueue_all_at q pt pt (targets from s.ports) frame s keys there at room in
    elim (List-cases (targets from s.ports)) [
      | inl e ↦ absurd (unfold lookup in cc (ap (lookup q) e))
      | inr ((p, u), rest, e) ↦ elim (List-cases rest) [
        | inl one ↦
            inl (rw (e, flood) (rw (one, flood) (only q p u pt frame (rw (e, one) at there))))
        | inr (t, more, many) ↦ inr (rw (e, flood) (rw (many, flood) queued))
      ]
    ]
