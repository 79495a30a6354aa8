-- ===== src/Switch/History/Tracking.antt =====
-- The table of addresses against the history of the switch.
use uml_kernel_build.Common.{
  ℕ, ◌+◌, ◌-◌, ◌≤◌, ◌<◌, ◌≡◌, ◌⊎◌, inl, inr, refl, sym, ap, ◌∙◌, true, false, none, some, List, [],
  ◌∷◌, arith, ltb, Bool-cases, Option-cases, List-cases, nat_eq, bytes_eq, length, Bytes, bytes_beq,
  bytes_beq_iff, slice, Dict, lookup, lookup-erase, NodupKeys, NodupKeys-insert, NodupKeys-erase,
}
use uml_kernel_build.Switch.{
  Port, port_beq, port_beq_iff, port_eq, mac_ttl, MacEntry, PortState, Switch, new, add_port,
  forget, add_peer, writer_step, is_multicast, lookup_mac, forward,
}
use uml_kernel_build.Switch.Frames.{
  learned, found, forward_short, forward_multicast, forward_unknown, forward_known, forward_hairpin,
}
use uml_kernel_build.Switch.Learning.{learn-macs, flood-macs, emit-macs}
use uml_kernel_build.Switch.Reader.{remove_port-macs}
use uml_kernel_build.Switch.Invariant.{learn_lem}
use uml_kernel_build.Switch.History.{
  Event, arrived, left, clock, teaches, unless_at, where_is, Runs, begin, register, join, write,
  fail, leave, arrive,
}

-- The table agrees with the history, but for entries that were deleted when they were too old.
abbrev pub Tracks : List Event → Dict Bytes MacEntry → Bytes → Type 0
Tracks es macs mac =
    (lookup mac macs ≡ where_is mac es)
    ⊎ ((lookup mac macs ≡ none)
        × (e : MacEntry) × (where_is mac es ≡ some e)
        × (e.seen + mac_ttl < clock es))

abbrev pub Follows : List Event → Dict Bytes MacEntry → Type 0
Follows es macs = NodupKeys macs × ((mac : Bytes) → Tracks es macs mac)

forget_absent :
    (p : Port) (mac : Bytes) (macs : Dict Bytes MacEntry)
    → lookup mac macs ≡ none
    → lookup mac (forget p macs) ≡ none
unfolding forget lookup
forget_absent p mac [] h = refl
forget_absent p mac ((key, e) ∷ macs) h = ground (arith, forget_absent p mac macs)

lookup-forget :
    (p : Port) (mac : Bytes) (macs : Dict Bytes MacEntry)
    → NodupKeys macs
    → lookup mac (forget p macs) ≡ unless_at p (lookup mac macs)
unfolding forget unless_at lookup
lookup-forget p mac [] n = refl
lookup-forget p mac ((key, e) ∷ macs) n =
    ground (arith, lookup-forget p mac macs n.1, forget_absent p mac macs, bytes_beq_iff key mac)

NodupKeys-forget :
    (p : Port) (macs : Dict Bytes MacEntry) → NodupKeys macs → NodupKeys (forget p macs)
unfolding forget
NodupKeys-forget p [] n = tt
NodupKeys-forget p ((key, e) ∷ macs) n = elim (Bool-cases (port_beq e.port p)) [
  | inl mine ↦ rw (mine, forget) (NodupKeys-forget p macs n.1)
  | inr other ↦ rw (other, forget) (forget_absent p key macs n.0, NodupKeys-forget p macs n.1)
]

forget-Follows :
    (p : Port) (es : List Event) (macs : Dict Bytes MacEntry)
    → Follows es macs
    → Follows (left p ∷ es) (forget p macs)
unfolding where_is unless_at clock
forget-Follows p es macs v = (
  NodupKeys-forget p macs v.0,
  λ mac.
      let h = lookup-forget p mac macs v.0 in
      elim (v.1 mac) [
        | inl same ↦ inl (h ∙ ap (unless_at p) same)
        | inr (absent, e, at, stale) ↦ elim (Bool-cases (port_beq e.port p)) [
          | inl mine ↦ inl (ground arith)
          | inr other ↦ inr (ground arith, e, ground arith, stale)
        ]
      ],
)

-- The frame at hand has arrived and its source is learned.
pub learned-Follows :
    (now : ℕ) (from : Port) (frame : Bytes) (es : List Event) (s : Switch)
    → clock es ≤ now
    → 14 ≤ length frame
    → Follows es s.macs
    → Follows (arrived now from frame ∷ es) (learned now from frame s).macs
unfolding where_is teaches clock
learned-Follows now from frame es s later long v = elim (Bool-cases (is_multicast src)) [
  | inl y ↦
      let same : learned now from frame s ≡ s = rw learn_lem (rw y refl) in
      rw same (
        v.0,
        λ mac. elim (v.1 mac) [
          | inl known ↦ inl (ground arith)
          | inr (absent, e, at, stale) ↦ inr (absent, e, ground arith, ground arith)
        ],
      )
  | inr n ↦
      let keys : NodupKeys (learned now from frame s).macs =
        rw learn_lem (rw n (NodupKeys-insert src _ s.macs v.0)) in
      (
        keys,
        λ mac.
            let h = learn-macs now src mac from s n in
            elim (Bool-cases (bytes_beq src mac)) [
              | inl it ↦ inl (h ∙ ground arith)
              | inr other ↦ elim (v.1 mac) [
                | inl known ↦ inl (h ∙ ground arith)
                | inr (absent, e, at, stale) ↦ inr (h ∙ ground arith, e, ground arith, ground arith)
              ]
            ],
      )
]
  where
    src : Bytes
    src = slice 6 12 frame

short-Follows :
    (now : ℕ) (from : Port) (frame : Bytes) (es : List Event) (macs : Dict Bytes MacEntry)
    → clock es ≤ now
    → length frame < 14
    → Follows es macs
    → Follows (arrived now from frame ∷ es) macs
unfolding where_is teaches clock
short-Follows now from frame es macs later short v = (
  v.0,
  λ mac. elim (v.1 mac) [
    | inl same ↦ inl (ground arith)
    | inr (absent, e, at, stale) ↦ inr (absent, e, ground arith, ground arith)
  ],
)

lookup_mac-Follows :
    (now : ℕ) (dst : Bytes) (es : List Event) (s : Switch)
    → clock es ≡ now
    → Follows es s.macs
    → Follows es (lookup_mac now dst s).1.macs
unfolding lookup_mac
lookup_mac-Follows now dst es s at v = elim (Option-cases (lookup dst s.macs)) [
  | inl e ↦ rw (e, lookup_mac) v
  | inr (entry, e) ↦ elim (Bool-cases (ltb mac_ttl (now - entry.seen))) [
    | inr fresh ↦ rw (e, lookup_mac) (rw fresh v)
    | inl past ↦
        rw (e, lookup_mac)
          (rw past (
            NodupKeys-erase dst s.macs v.0,
            λ mac.
                let h = lookup-erase dst mac s.macs in
                elim (Bool-cases (bytes_beq dst mac)) [
                  | inr other ↦ elim (v.1 mac) [
                    | inl known ↦ inl (h ∙ ground arith)
                    | inr (absent, x, there, stale) ↦ inr (h ∙ ground arith, x, there, stale)
                  ]
                  | inl it ↦
                      let same : dst ≡ mac = (bytes_beq_iff dst mac).0 it in
                      elim (v.1 mac) [
                        | inl known ↦
                            inr (h ∙ ground arith, entry, sym known ∙ rw (← same) e, ground arith)
                        | inr (absent, x, there, stale) ↦ absurd (ground arith)
                      ]
                ],
          ))
  ]
]

forward-Follows :
    (now : ℕ) (from : Port) (frame : Bytes) (es : List Event) (s : Switch)
    → clock es ≤ now
    → Follows es s.macs
    → Follows (arrived now from frame ∷ es) (forward now from frame s).1.macs
forward-Follows now from frame es s later v =
    let s1 = learned now from frame s in
    let s2 = (found now from frame s).1 in
    let at : clock (arrived now from frame ∷ es) ≡ now = unfold clock in refl in
    elim (Bool-cases (ltb (length frame) 14)) [
      | inl short ↦
          rw (forward_short now from frame s (ground arith))
            (short-Follows now from frame es s.macs later (ground arith) v)
      | inr whole ↦
          let long : 14 ≤ length frame = ground arith in
          let v1 = learned-Follows now from frame es s later long v in
          let v2 =
            lookup_mac-Follows now (slice 0 6 frame) (arrived now from frame ∷ es) s1 at v1 in
          elim (Bool-cases (is_multicast (slice 0 6 frame))) [
            | inl m ↦
                rw (forward_multicast now from frame s long m) (rw (flood-macs from frame s1) v1)
            | inr m ↦ elim (Option-cases (found now from frame s).0) [
              | inl e ↦
                  rw (forward_unknown now from frame s long m e) (rw (flood-macs from frame s2) v2)
              | inr (p, e) ↦ elim (Bool-cases (port_beq p from)) [
                | inl back ↦
                    rw (forward_hairpin now from frame s long p m e ((port_beq_iff p from).0 back))
                      v2
                | inr on ↦
                    rw
                      (forward_known now from frame s long p m e
                        (ground (arith, port_beq_iff p from)))
                      (rw (emit-macs p frame s2) v2)
              ]
            ]
          ]
    ]

writer_step-macs : (p : Port) (s : Switch) → (writer_step p false s).1.macs ≡ s.macs
unfolding writer_step
writer_step-macs p s = elim (Option-cases (lookup p s.ports)) [
  | inl e ↦ rw (e, writer_step) refl
  | inr (pt, e) ↦ elim (List-cases pt.out) [
    | inl idle ↦ rw (e, writer_step) (rw (idle, writer_step) refl)
    | inr (frame, rest, more) ↦ rw (e, writer_step) (rw (more, writer_step) refl)
  ]
]

writer_step-failed :
    (p : Port) (pt : PortState) (frame : Bytes) (rest : List Bytes) (s : Switch)
    → lookup p s.ports ≡ some pt
    → pt.out ≡ frame ∷ rest
    → (writer_step p true s).1.macs ≡ forget p s.macs
unfolding writer_step
writer_step-failed p pt frame rest s e more =
    rw (e, writer_step) (rw (more, writer_step) (remove_port-macs p _))

add_peer-macs : (sink : ℕ) (s : Switch) → (add_peer sink s).1.macs ≡ s.macs
unfolding add_peer
add_peer-macs sink s = ground arith

new-Follows : Follows [] new.macs
unfolding new where_is lookup
new-Follows = (tt, λ mac. inl refl)

add_port-Follows :
    (p : Port) (sink : ℕ) (es : List Event) (s : Switch)
    → Follows es s.macs
    → Follows es (add_port p sink s).macs
unfolding add_port
add_port-Follows p sink es s v = v

pub Runs-Follows : {es : List Event} {s : Switch} → Runs es s → Follows es s.macs
Runs-Follows begin = new-Follows
Runs-Follows (register {es} {s} p sink r) = add_port-Follows p sink es s (Runs-Follows r)
Runs-Follows (join {s} sink r) = rw (add_peer-macs sink s) (Runs-Follows r)
Runs-Follows (write {s} p r) = rw (writer_step-macs p s) (Runs-Follows r)
Runs-Follows (fail {es} {s} p pt frame rest r at queued) =
    rw (writer_step-failed p pt frame rest s at queued)
      (forget-Follows p es s.macs (Runs-Follows r))
Runs-Follows (leave {es} {s} p r) =
    rw (remove_port-macs p s) (forget-Follows p es s.macs (Runs-Follows r))
Runs-Follows (arrive {es} {s} now from frame r later) =
    forward-Follows now from frame es s later (Runs-Follows r)
