-- ===== src/Switch/History/Refines.antt =====
-- The switch implements what it promises: its tables lose nothing that the history has.
use uml_kernel_build.Common.{
  ℕ, ◌≤◌, ◌≡◌, inl, inr, refl, ◌∙◌, false, Option, none, some, List, [], ◌∷◌, arith, ltb,
  if◌then◌else◌, Bool-cases, Option-cases, List-cases, nat_eq, bytes_eq, length, Bytes, slice,
}
use uml_kernel_build.Switch.{
  Port, port_beq, port_beq_iff, port_eq, PortState, Switch, Sent, is_multicast, learn, lookup_mac,
  enqueue, emit, targets, enqueue_all, flood, forward,
}
use uml_kernel_build.Switch.Frames.{
  learned, found, forward_short, forward_multicast, forward_unknown, forward_known, forward_hairpin,
}
use uml_kernel_build.Switch.Invariant.{learn_lem}
use uml_kernel_build.Switch.History.{
  Event, arrived, clock, where_is, Decision, kept, directed, flooded, route, decide, carry, Runs,
}
use uml_kernel_build.Switch.History.Tracking.{Tracks, Runs-Follows, learned-Follows}

-- A switch but for its table of addresses.
abbrev pub SameButMacs : Switch → Switch → Type 0
SameButMacs s t = (s.ports ≡ t.ports) × (s.drops ≡ t.drops) × (s.peers ≡ t.peers)

-- The same frames are sent inline, and the switches are the same but for their tables.
abbrev pub SameSent : List Sent × Switch → List Sent × Switch → Type 0
SameSent r q = (r.0 ≡ q.0) × SameButMacs r.1 q.1

learn-SameButMacs :
    (now : ℕ) (mac : Bytes) (from : Port) (s : Switch) → SameButMacs (learn now mac from s) s
learn-SameButMacs now mac from s = rw learn_lem (ground arith)

lookup_mac-SameButMacs :
    (now : ℕ) (mac : Bytes) (s : Switch) → SameButMacs (lookup_mac now mac s).1 s
unfolding lookup_mac
lookup_mac-SameButMacs now mac s = ground arith

enqueue-SameButMacs :
    (p : Port) (frame : Bytes) (s t : Switch)
    → SameButMacs s t
    → SameButMacs (enqueue p frame s) (enqueue p frame t)
unfolding enqueue
enqueue-SameButMacs p frame s t (ports, drops, peers) = ground arith

enqueue_all-SameButMacs :
    (ts : List (Port × PortState)) (frame : Bytes) (s t : Switch)
    → SameButMacs s t
    → SameButMacs (enqueue_all ts frame s) (enqueue_all ts frame t)
unfolding enqueue_all
enqueue_all-SameButMacs [] frame s t same = same
enqueue_all-SameButMacs ((p, pt) ∷ ts) frame s t same =
    enqueue_all-SameButMacs ts frame _ _ (enqueue-SameButMacs p frame s t same)

emit-SameSent :
    (p : Port) (frame : Bytes) (s t : Switch)
    → SameButMacs s t
    → SameSent (emit p frame s) (emit p frame t)
unfolding emit
emit-SameSent p frame s t (ports, drops, peers) =
    ground (arith, enqueue-SameButMacs p frame s t (ports, drops, peers))

flood-SameSent :
    (from : Port) (frame : Bytes) (s t : Switch)
    → SameButMacs s t
    → SameSent (flood from frame s) (flood from frame t)
unfolding flood
flood-SameSent from frame s t (ports, drops, peers) =
    let same = enqueue_all-SameButMacs (targets from t.ports) frame s t (ports, drops, peers) in
    elim (List-cases (targets from t.ports)) [
      | inl e ↦ rw (ports, flood) (rw (e, flood) (refl, (ports, drops, peers)))
      | inr ((p, pt), rest, e) ↦ elim (List-cases rest) [
        | inl one ↦
            rw (ports, flood) (rw (e, flood) (rw (one, flood) (refl, (ports, drops, peers))))
        | inr (u, more, many) ↦ ground arith
      ]
    ]

toward : Port → Option Port → Decision
toward from none = flooded
toward from (some p) = if port_beq p from then kept else directed p

-- The table answers as the history does.
lookup_mac-route :
    (now : ℕ) (dst : Bytes) (from : Port) (es : List Event) (s : Switch)
    → clock es ≡ now
    → Tracks es s.macs dst
    → route now from (where_is dst es) ≡ toward from (lookup_mac now dst s).0
unfolding lookup_mac route toward
lookup_mac-route now dst from es s at known = elim known [
  | inl same ↦ elim (Option-cases (where_is dst es)) [
    | inl e ↦ ground arith
    | inr (entry, e) ↦ ground arith
  ]
  | inr (absent, entry, e, stale) ↦ ground arith
]

forward-toward :
    (now : ℕ) (from : Port) (frame : Bytes) (s : Switch)
    → 14 ≤ length frame
    → is_multicast (slice 0 6 frame) ≡ false
    → SameSent
        (forward now from frame s)
        (carry (toward from (found now from frame s).0) from frame s)
unfolding carry toward
forward-toward now from frame s long m =
    let s2 = (found now from frame s).1 in
    let (p1, d1, n1) = learn-SameButMacs now (slice 6 12 frame) from s in
    let (p2, d2, n2) = lookup_mac-SameButMacs now (slice 0 6 frame) (learned now from frame s) in
    let same : SameButMacs s2 s = (p2 ∙ p1, d2 ∙ d1, n2 ∙ n1) in
    elim (Option-cases (found now from frame s).0) [
      | inl e ↦
          rw (forward_unknown now from frame s long m e)
            (rw e (flood-SameSent from frame s2 s same))
      | inr (p, e) ↦ elim (Bool-cases (port_beq p from)) [
        | inl back ↦
            rw (forward_hairpin now from frame s long p m e ((port_beq_iff p from).0 back))
              (rw e (rw (back, carry) (refl, same)))
        | inr on ↦
            rw (forward_known now from frame s long p m e (ground (arith, port_beq_iff p from)))
              (rw e (rw (on, carry) (emit-SameSent p frame s2 s same)))
      ]
    ]

decide_unicast :
    (now : ℕ) (from : Port) (frame : Bytes) (es : List Event)
    → 14 ≤ length frame
    → is_multicast (slice 0 6 frame) ≡ false
    → decide now from frame es
      ≡ route now from (where_is (slice 0 6 frame) (arrived now from frame ∷ es))
unfolding decide
decide_unicast now from frame es long m =
    let whole : ltb (length frame) 14 ≡ false = ground arith in ground arith

-- A frame that arrives at a switch of any history, no earlier than the frames before it, is dealt with
-- as `decide` says from the history alone: one shorter than 14 bytes is dropped; one to a unicast
-- address goes to the port that the last frame from this address came from, if that was within 300
-- seconds and the port has not been removed since, and is dropped if that is where it comes from;
-- every other one is flooded. The frames sent inline, the queues, the drop counter and the number of
-- peers are those of that decision.
pub forward-decide :
    (now : ℕ) (from : Port) (frame : Bytes) (es : List Event) (s : Switch)
    → Runs es s
    → clock es ≤ now
    → SameSent (forward now from frame s) (carry (decide now from frame es) from frame s)
unfolding decide carry
forward-decide now from frame es s r later = elim (Bool-cases (ltb (length frame) 14)) [
  | inl short ↦
      rw (forward_short now from frame s (ground arith))
        (rw (short, decide) (refl, (refl, refl, refl)))
  | inr whole ↦
      let long : 14 ≤ length frame = ground arith in
      elim (Bool-cases (is_multicast (slice 0 6 frame))) [
        | inl m ↦ rw (forward_multicast now from frame s long m) (
            rw (whole, decide)
              (rw m (
                flood-SameSent from frame (learned now from frame s) s
                  (learn-SameButMacs now _ from s))))
        | inr m ↦
            let v = learned-Follows now from frame es s later long (Runs-Follows r) in
            let at : clock (arrived now from frame ∷ es) ≡ now = unfold clock in refl in
            let way =
              lookup_mac-route now (slice 0 6 frame) from (arrived now from frame ∷ es)
                (learned now from frame s) at (v.1 (slice 0 6 frame)) in
            rw (decide_unicast now from frame es long m ∙ way)
              (forward-toward now from frame s long m)
      ]
]
