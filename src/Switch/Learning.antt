-- ===== src/Switch/Learning.antt =====
-- What the switch learns from a frame, and how it uses it for the frames that follow.
use uml_kernel_build.Common.{
  ℕ, ◌+◌, ◌-◌, ◌≤◌, ◌<◌, ◌≡◌, ◌≢◌, ◌⊎◌, ◌++◌, Bool, beq_self, inl, inr, refl, sym, ap, ◌∙◌, true,
  false, none, some, List, [], ◌∷◌, arith, ltb, if◌then◌else◌, Bool-cases, Option-cases, nat_eq,
  bytes_eq, length, Bytes, bytes_beq, bytes_beq_self, bytes_beq_iff, slice, lookup, erase,
  lookup-insert, lookup-erase,
}
use uml_kernel_build.Switch.{
  pos, Port, port_eq, port_beq, out_queue, Sent, mac_ttl, MacEntry, PortState, Switch, is_multicast,
  learn, lookup_mac, enqueue, emit, targets, enqueue_all, flood, forward,
}
use uml_kernel_build.Switch.Invariant.{learn_lem}
use uml_kernel_build.Switch.Frames.{
  emit-Untouched, learn-ports, Untouched, Untouched-from, learned, found, forward_no_echo,
  forward_known, forward_unknown,
}

pub learn-macs :
    (now : ℕ) (mac key : Bytes) (from : Port) (s : Switch)
    → is_multicast mac ≡ false
    → lookup key (learn now mac from s).macs
      ≡ (if bytes_beq mac key then some (record { port = from; seen = now }) else lookup key s.macs)
learn-macs now mac key from s m = rw learn_lem (rw m (lookup-insert mac key _ s.macs))

pub lookup_mac-fresh :
    (now : ℕ) (mac : Bytes) (e : MacEntry) (s : Switch)
    → lookup mac s.macs ≡ some e
    → now ≤ e.seen + mac_ttl
    → lookup_mac now mac s ≡ (some e.port, s)
unfolding lookup_mac
lookup_mac-fresh now mac e s h fresh =
    let within : ltb mac_ttl (now - e.seen) ≡ false = ground arith in
    rw (h, lookup_mac) (rw within refl)

pub lookup_mac-stale :
    (now : ℕ) (mac : Bytes) (e : MacEntry) (s : Switch)
    → lookup mac s.macs ≡ some e
    → e.seen + mac_ttl < now
    → lookup_mac now mac s ≡ (none, record s { macs = erase mac s.macs })
unfolding lookup_mac
lookup_mac-stale now mac e s h stale =
    let past : ltb mac_ttl (now - e.seen) ≡ true = ground arith in rw (h, lookup_mac) (rw past refl)

pub learn-other :
    (now : ℕ) (mac key : Bytes) (from : Port) (s : Switch)
    → mac ≢ key
    → lookup key (learn now mac from s).macs ≡ lookup key s.macs
learn-other now mac key from s ne = elim (Bool-cases (is_multicast mac)) [
  | inl y ↦ rw learn_lem (rw y refl)
  | inr n ↦
      let differ : bytes_beq mac key ≡ false = ground (arith, bytes_beq_iff mac key) in
      learn-macs now mac key from s n ∙ rw differ refl
]

lookup_mac-keeps :
    (now : ℕ) (mac key : Bytes) (e : MacEntry) (s : Switch)
    → lookup key s.macs ≡ some e
    → now ≤ e.seen + mac_ttl
    → lookup key (lookup_mac now mac s).1.macs ≡ some e
unfolding lookup_mac
lookup_mac-keeps now mac key e s h fresh =
    ground (arith, bytes_beq_iff mac key, lookup-erase mac key s.macs)

enqueue-macs : (p : Port) (frame : Bytes) (s : Switch) → (enqueue p frame s).macs ≡ s.macs
unfolding enqueue
enqueue-macs p frame s = ground arith

enqueue_all-macs :
    (ts : List (Port × PortState)) (frame : Bytes) (s : Switch)
    → (enqueue_all ts frame s).macs ≡ s.macs
unfolding enqueue_all
enqueue_all-macs [] frame s = refl
enqueue_all-macs ((p, _) ∷ ts) frame s =
    enqueue_all-macs ts frame (enqueue p frame s) ∙ enqueue-macs p frame s

pub emit-macs : (p : Port) (frame : Bytes) (s : Switch) → (emit p frame s).1.macs ≡ s.macs
unfolding emit
emit-macs p frame s = ground (arith, enqueue-macs p frame s)

pub flood-macs : (from : Port) (frame : Bytes) (s : Switch) → (flood from frame s).1.macs ≡ s.macs
unfolding flood
flood-macs from frame s = ground (arith, enqueue_all-macs (targets from s.ports) frame s)

-- The source of a frame is known at its port afterwards, on every way through `forward`.
forward-learns :
    (now : ℕ) (from : Port) (frame : Bytes) (s : Switch)
    → 14 ≤ length frame
    → is_multicast (slice 6 12 frame) ≡ false
    → lookup (slice 6 12 frame) (forward now from frame s).1.macs
      ≡ some (record { port = from; seen = now })
unfolding forward
forward-learns now from frame s long uni =
    let src = slice 6 12 frame in
    let s1 = learned now from frame s in
    let s2 = (found now from frame s).1 in
    let in1 : lookup src s1.macs ≡ some (record { port = from; seen = now }) =
      learn-macs now src src from s uni ∙ rw (bytes_beq_self src) refl in
    let in2 : lookup src s2.macs ≡ some (record { port = from; seen = now }) =
      lookup_mac-keeps now (slice 0 6 frame) src _ s1 in1 (omega arith) in
    elim (Option-cases (found now from frame s).0) [
      | inl e ↦ ground (arith, flood-macs from frame s1, flood-macs from frame s2)
      | inr (p, e) ↦ ground (arith, flood-macs from frame s1, emit-macs p frame s2)
    ]

-- What a port gets that is registered and has room: the frame at once where there are no peers, and
-- else as the last one of its queue.
unfoldable pub Given : Port → PortState → Bytes → Bool → List Sent × Switch → Type 0
Given p pt frame alone r =
    ((alone ≡ true)
      × (r.0 ≡ record { port = p; sink = pt.sink; frame = frame } ∷ [])
      × (lookup p r.1.ports ≡ some pt))
    ⊎ ((alone ≡ false)
        × (r.0 ≡ [])
        × (lookup p r.1.ports ≡ some (record pt { out = pt.out ++ (frame ∷ []) })))

emit-Given :
    (p : Port) (pt : PortState) (frame : Bytes) (s : Switch)
    → lookup p s.ports ≡ some pt
    → length pt.out < out_queue
    → Given p pt frame (port_beq s.peers (pos 0)) (emit p frame s)
unfolding emit enqueue Given
emit-Given p pt frame s at room = elim (Bool-cases (port_beq s.peers (pos 0))) [
  | inl alone ↦ inl (alone, rw (at, alone, emit) refl, rw (at, alone, emit) at)
  | inr peers ↦
      let fits : ltb (length pt.out) out_queue ≡ true = ground (arith, room) in
      let full = record pt { out = pt.out ++ (frame ∷ []) } in
      inr (
        peers,
        rw (at, peers, emit) refl,
        rw (at, peers, emit)
            (rw (at, fits, enqueue) (lookup-insert p p full s.ports ∙ rw (beq_self p) refl)),
      )
]

learn-peers :
    (now : ℕ) (mac : Bytes) (from : Port) (s : Switch) → (learn now mac from s).peers ≡ s.peers
learn-peers now mac from s = rw learn_lem (ground arith)

-- Once a frame from a unicast source has arrived on port `home`, which has room in its queue, a unicast
-- frame to that source, from another port and other source within 300 seconds, is handed to `home`, and
-- to no other port: where there are no peers it is sent to its sink, and else it is the last one of its
-- queue; no other port is sent anything or has its queue changed.
pub forward_reply :
    (t t' : ℕ) (home from q : Port) (pt : PortState) (frame frame' : Bytes) (s : Switch)
    → 14 ≤ length frame
    → 14 ≤ length frame'
    → is_multicast (slice 6 12 frame) ≡ false
    → slice 0 6 frame' ≡ slice 6 12 frame
    → slice 6 12 frame' ≢ slice 6 12 frame
    → t' ≤ t + mac_ttl
    → home ≢ from
    → q ≢ home
    → lookup home s.ports ≡ some pt
    → length pt.out < out_queue
    → Given home pt frame'
        (port_beq (forward t home frame s).1.peers (pos 0))
        (forward t' from frame' (forward t home frame s).1)
      × Untouched q (forward t home frame s).1 (forward t' from frame' (forward t home frame s).1)
forward_reply t t' home from q pt frame frame' s long long' uni to src soon ne nq at room =
    let s1 = (forward t home frame s).1 in
    let s2 = learn t' (slice 6 12 frame') from s1 in
    let there : lookup (slice 0 6 frame') s2.macs ≡ some (record { port = home; seen = t }) =
      rw to (learn-other t' _ _ from s1 src ∙ forward-learns t home frame s long uni) in
    let hit : lookup_mac t' (slice 0 6 frame') s2 ≡ (some home, s2) =
      lookup_mac-fresh t' (slice 0 6 frame') _ s2 there soon in
    let m : is_multicast (slice 0 6 frame') ≡ false = rw to uni in
    let whole : forward t' from frame' s1 ≡ emit home frame' s2 =
      forward_known t' from frame' s1 long' home m (ap (λ r. r.0) hit) ne
      ∙ ap (λ r. emit home frame' r.1) hit in
    let kept : lookup home s1.ports ≡ some pt = (forward_no_echo t home frame s).1 ∙ at in
    let at2 : lookup home s2.ports ≡ some pt = ap (lookup home) (learn-ports t' _ from s1) ∙ kept in
    (
      rw (whole, ← learn-peers t' (slice 6 12 frame') from s1)
          (emit-Given home pt frame' s2 at2 room),
      rw whole (
          Untouched-from q s1 s2 (emit home frame' s2) (learn-ports t' _ from s1)
            (emit-Untouched home q frame' s2 (λ e. nq (sym e)))),
    )

-- A unicast frame to an address whose entry is older than 300 seconds is flooded, and the entry is
-- deleted first.
pub forward_stale :
    (now : ℕ) (from : Port) (frame : Bytes) (e : MacEntry) (s : Switch)
    → 14 ≤ length frame
    → is_multicast (slice 0 6 frame) ≡ false
    → slice 6 12 frame ≢ slice 0 6 frame
    → lookup (slice 0 6 frame) s.macs ≡ some e
    → e.seen + mac_ttl < now
    → (forward now from frame s
        ≡ flood from frame (record (learned now from frame s) {
          macs = erase (slice 0 6 frame) (learned now from frame s).macs;
        }))
      × (lookup (slice 0 6 frame) (forward now from frame s).1.macs ≡ none)
forward_stale now from frame e s long m ne there stale =
    let dst = slice 0 6 frame in
    let s1 = learned now from frame s in
    let s2 = record s1 { macs = erase dst s1.macs } in
    let known : lookup dst s1.macs ≡ some e = learn-other now _ dst from s ne ∙ there in
    let miss : found now from frame s ≡ (none, s2) = lookup_mac-stale now dst e s1 known stale in
    let whole : forward now from frame s ≡ flood from frame s2 =
      forward_unknown now from frame s long m (ap (λ r. r.0) miss)
      ∙ ap (λ r. flood from frame r.1) miss in
    let gone : lookup dst s2.macs ≡ none =
      lookup-erase dst dst s1.macs ∙ rw (bytes_beq_self dst) refl in
    (whole, rw whole (ap (lookup dst) (flood-macs from frame s2) ∙ gone))
