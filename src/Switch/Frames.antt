-- ===== src/Switch/Frames.antt =====
-- Where frames go: never back, to the learned port alone, or to every other port.
use uml_kernel_build.Common.{
  ℕ, ◌≤◌, ◌<◌, ◌≡◌, ◌≢◌, inl, inr, refl, ap, ◌∙◌, true, false, Option, none, some, List, [], ◌∷◌,
  ◌++◌, arith, ltb, Bool-cases, Option-cases, List-cases, nat_eq, bytes_eq, length, All, Bytes,
  slice, Dict, lookup, lookup-insert,
}
use uml_kernel_build.Switch.{
  pos, negsuc, Port, port_beq, port_beq_iff, port_eq, PortState, Switch, Sent, is_multicast, learn,
  lookup_mac, enqueue, emit, targets, enqueue_all, flood, forward,
}
use uml_kernel_build.Switch.Invariant.{learn_lem}

port_beq_self : (p : Port) → port_beq p p ≡ true
port_beq_self (pos n) = ground arith
port_beq_self (negsuc n) = ground arith

pub enqueue_other :
    (p q : Port) (frame : Bytes) (s : Switch)
    → p ≢ q
    → lookup q (enqueue p frame s).ports ≡ lookup q s.ports
unfolding enqueue
enqueue_other p q frame s ne = elim (Option-cases (lookup p s.ports)) [
  | inl e ↦ rw (e, enqueue) refl
  | inr (pt, e) ↦ ground (
    arith,
    port_beq_iff p q,
    lookup-insert p q (record { sink = pt.sink; out = pt.out ++ (frame ∷ []) }) s.ports,
  )
]

-- What the loop of `flood` leaves alone.
abbrev pub Missing : Port → List (Port × PortState) → Type 0
Missing q ts = All (λ (t : Port × PortState). t.0 ≢ q) ts

targets-Missing : (from : Port) (m : Dict Port PortState) → Missing from (targets from m)
unfolding targets
targets-Missing from [] = tt
targets-Missing from ((p, pt) ∷ m) = elim (Bool-cases (port_beq p from)) [
  | inl y ↦ rw (y, targets) (targets-Missing from m)
  | inr n ↦ rw (n, targets) ((λ e. cc ((port_beq_iff p from).1 e)), targets-Missing from m)
]

pub enqueue_all_other :
    (q : Port) (ts : List (Port × PortState)) (frame : Bytes) (s : Switch)
    → Missing q ts
    → lookup q (enqueue_all ts frame s).ports ≡ lookup q s.ports
unfolding enqueue_all
enqueue_all_other q [] frame s m = refl
enqueue_all_other q ((p, _) ∷ ts) frame s m =
    enqueue_all_other q ts frame (enqueue p frame s) m.1 ∙ enqueue_other p q frame s m.0

-- Nothing is sent to `q` inline, and its queue is as it was.
abbrev pub Untouched : Port → Switch → List Sent × Switch → Type 0
Untouched q s r = All (λ (x : Sent). x.port ≢ q) r.0 × (lookup q r.1.ports ≡ lookup q s.ports)

flood-Untouched : (from : Port) (frame : Bytes) (s : Switch) → Untouched from s (flood from frame s)
unfolding flood
flood-Untouched from frame s = elim (List-cases (targets from s.ports)) [
  | inl e ↦ rw (e, flood) (tt, refl)
  | inr ((p, pt), rest, e) ↦
      let missing : Missing from ((p, pt) ∷ rest) = rw e at (targets-Missing from s.ports) in
      elim (List-cases rest) [
        | inl one ↦ rw (e, flood) (rw (one, flood) ((missing.0, tt), refl))
        | inr (t, more, many) ↦
            rw (e, flood)
              (rw (many, flood)
                (
                  tt,
                  enqueue_all_other from (targets from s.ports) frame s
                      (targets-Missing from s.ports),
                ))
      ]
]

pub emit-Untouched :
    (p q : Port) (frame : Bytes) (s : Switch) → p ≢ q → Untouched q s (emit p frame s)
unfolding emit
emit-Untouched p q frame s ne = ground (arith, enqueue_other p q frame s ne)

pub learn-ports :
    (now : ℕ) (mac : Bytes) (from : Port) (s : Switch) → (learn now mac from s).ports ≡ s.ports
learn-ports now mac from s = rw learn_lem (ground arith)

lookup_mac-ports : (now : ℕ) (mac : Bytes) (s : Switch) → (lookup_mac now mac s).1.ports ≡ s.ports
unfolding lookup_mac
lookup_mac-ports now mac s = ground arith

pub Untouched-from :
    (q : Port) (s t : Switch) (r : List Sent × Switch)
    → t.ports ≡ s.ports
    → Untouched q t r
    → Untouched q s r
Untouched-from q s t r e u = (u.0, u.1 ∙ ap (lookup q) e)

-- The state in which a frame's destination is looked up, and what `forward` does from there.
abbrev pub learned : ℕ → Port → Bytes → Switch → Switch
learned now from frame s = learn now (slice 6 12 frame) from s

abbrev pub found : ℕ → Port → Bytes → Switch → Option Port × Switch
found now from frame s = lookup_mac now (slice 0 6 frame) (learned now from frame s)

pub forward_short :
    (now : ℕ) (from : Port) (frame : Bytes) (s : Switch)
    → length frame < 14
    → forward now from frame s ≡ ([], s)
unfolding forward
forward_short now from frame s h =
    let e : ltb (length frame) 14 ≡ true = ground arith in rw (e, forward) refl

module _ (now : ℕ) (from : Port) (frame : Bytes) (s : Switch) (long : 14 ≤ length frame) where
  not_short : ltb (length frame) 14 ≡ false
  not_short = ground arith

  pub forward_multicast :
      is_multicast (slice 0 6 frame) ≡ true
      → forward now from frame s ≡ flood from frame (learned now from frame s)
  unfolding forward
  forward_multicast m = rw (not_short, forward) (rw m refl)

  pub forward_unknown :
      is_multicast (slice 0 6 frame) ≡ false
      → (found now from frame s).0 ≡ none
      → forward now from frame s ≡ flood from frame (found now from frame s).1
  unfolding forward
  forward_unknown m e = rw (not_short, forward) (rw m (rw e refl))

  pub forward_known :
      (p : Port)
      → is_multicast (slice 0 6 frame) ≡ false
      → (found now from frame s).0 ≡ some p
      → p ≢ from
      → forward now from frame s ≡ emit p frame (found now from frame s).1
  unfolding forward
  forward_known p m e ne =
      let other : port_beq p from ≡ false = ground (arith, port_beq_iff p from) in
      rw (not_short, forward) (rw m (rw e (rw other refl)))

  pub forward_hairpin :
      (p : Port)
      → is_multicast (slice 0 6 frame) ≡ false
      → (found now from frame s).0 ≡ some p
      → p ≡ from
      → forward now from frame s ≡ ([], (found now from frame s).1)
  unfolding forward
  forward_hairpin p m e same =
      let back : port_beq p from ≡ true = (port_beq_iff p from).1 same in
      rw (not_short, forward) (rw m (rw e (rw back refl)))

  found-ports : (found now from frame s).1.ports ≡ s.ports
  found-ports = lookup_mac-ports now _ _ ∙ learn-ports now _ from s

-- A frame never goes back to the port that it came from: nothing is sent there inline, and the
-- port's queue is as it was.
pub forward_no_echo :
    (now : ℕ) (from : Port) (frame : Bytes) (s : Switch)
    → Untouched from s (forward now from frame s)
forward_no_echo now from frame s = elim (Bool-cases (ltb (length frame) 14)) [
  | inl short ↦ rw (forward_short now from frame s (ground arith)) (tt, refl)
  | inr long ↦
      let h : 14 ≤ length frame = ground arith in
      let t = (found now from frame s).1 in
      let same : t.ports ≡ s.ports = found-ports now from frame s h in
      elim (Bool-cases (is_multicast (slice 0 6 frame))) [
        | inl m ↦ rw (forward_multicast now from frame s h m) (
            Untouched-from from s (learned now from frame s)
              (flood from frame (learned now from frame s)) (learn-ports now _ from s)
              (flood-Untouched from frame _))
        | inr m ↦ elim (Option-cases (found now from frame s).0) [
          | inl e ↦
              rw (forward_unknown now from frame s h m e)
                (Untouched-from from s t (flood from frame t) same (flood-Untouched from frame t))
          | inr (p, e) ↦ elim (Bool-cases (port_beq p from)) [
            | inl back ↦
                rw (forward_hairpin now from frame s h p m e ((port_beq_iff p from).0 back))
                  (tt, ap (lookup from) same)
            | inr n ↦
                let ne : p ≢ from = λ b. cc ((port_beq_iff p from).1 b) in
                rw (forward_known now from frame s h p m e ne)
                  (Untouched-from from s t (emit p frame t) same (emit-Untouched p from frame t ne))
          ]
        ]
      ]
]
