-- ===== src/Switch/Ports.antt =====
-- The switch's state stays well formed under every operation.
use uml_kernel_build.Common.{
  ℕ, zero, suc, ◌+◌, ◌≤◌, ◌<◌, ◌≡◌, inl, inr, refl, ap, Bool, true, false, none, some, [], ◌∷◌,
  arith, if◌then◌else◌, Option-cases, List-cases, nat_eq, bytes_eq, length, All, Bytes, Dict,
  lookup, insert, erase, All-insert, All-erase, All-lookup, NodupKeys, NodupKeys-insert,
  NodupKeys-erase, erase_absent,
}
use uml_kernel_build.Switch.{
  pos, negsuc, Port, port_beq_iff, port_eq, is_peer, max_peers, out_queue, MacEntry, PortState,
  Switch, new, add_port, forget, remove_port, free_port, add_peer, writer_step, is_multicast,
}

unfoldable pub peer_count : Dict Port PortState → ℕ
peer_count [] = 0
peer_count ((p, _) ∷ ports) = if is_peer p then suc (peer_count ports) else peer_count ports

peer_count-insert_old :
    (p : Port) (v w : PortState) (m : Dict Port PortState)
    → lookup p m ≡ some w
    → peer_count (insert p v m) ≡ peer_count m
unfolding peer_count insert lookup
peer_count-insert_old p v w [] h = cc
peer_count-insert_old p v w ((q, u) ∷ m) h =
    ground (arith, port_beq_iff q p, peer_count-insert_old p v w m)

peer_count-insert_new :
    (p : Port) (v : PortState) (m : Dict Port PortState)
    → lookup p m ≡ none
    → peer_count (insert p v m) ≡ (if is_peer p then suc (peer_count m) else peer_count m)
unfolding peer_count insert lookup
peer_count-insert_new p v [] h = ground arith
peer_count-insert_new p v ((q, u) ∷ m) h =
    ground (arith, port_beq_iff q p, peer_count-insert_new p v m)

peer_count-erase :
    (p : Port) (w : PortState) (m : Dict Port PortState)
    → NodupKeys m
    → lookup p m ≡ some w
    → peer_count m ≡ (if is_peer p then suc (peer_count (erase p m)) else peer_count (erase p m))
unfolding peer_count erase lookup
peer_count-erase p w [] n h = cc
peer_count-erase p w ((q, u) ∷ m) n h =
    ground (arith, port_beq_iff q p, erase_absent p m, peer_count-erase p w m)

abbrev pub InRange : Port → Type 0
InRange (pos n) = n < max_peers
InRange (negsuc n) = Unit

abbrev pub PortFits : Port × PortState → Type 0
PortFits (p, pt) = InRange p × (length pt.out ≤ out_queue)

pub record IsSwitch (s : Switch) : Type 0 where
  pub unicast : All (λ (e : Bytes × MacEntry). is_multicast e.0 ≡ false) s.macs
  pub fits : All PortFits s.ports
  pub keys : NodupKeys s.ports
  pub counted : s.peers ≡ pos (peer_count s.ports)

pub new-IsSwitch : IsSwitch new
unfolding new peer_count
new-IsSwitch = record { unicast = tt; fits = tt; keys = tt; counted = refl }

forget-unicast :
    (p : Port) (macs : Dict Bytes MacEntry)
    → All (λ (e : Bytes × MacEntry). is_multicast e.0 ≡ false) macs
    → All (λ (e : Bytes × MacEntry). is_multicast e.0 ≡ false) (forget p macs)
unfolding forget
forget-unicast p [] a = tt
forget-unicast p ((mac, e) ∷ macs) a = ground (arith, forget-unicast p macs)

-- A new state for a port that is there.
pub write-IsSwitch :
    (s : Switch) (p : Port) (old pt : PortState)
    → IsSwitch s
    → lookup p s.ports ≡ some old
    → length pt.out ≤ out_queue
    → IsSwitch (record s { ports = insert p pt s.ports })
write-IsSwitch s p old pt v there fits = record {
  unicast = v.unicast;
  fits =
      All-insert PortFits p pt s.ports ((All-lookup PortFits p s.ports v.fits there).0, fits)
        v.fits;
  keys = NodupKeys-insert p pt s.ports v.keys;
  counted = rw (peer_count-insert_old p pt old s.ports there) v.counted;
}

pub remove_port-IsSwitch : (p : Port) {s : Switch} → IsSwitch s → IsSwitch (remove_port p s)
unfolding remove_port
remove_port-IsSwitch p {s} v = elim (Option-cases (lookup p s.ports)) [
  | inl e ↦
      rw (e, remove_port)
        (record {
          unicast = forget-unicast p s.macs v.unicast;
          fits = v.fits;
          keys = v.keys;
          counted = v.counted;
        })
  | inr (pt, e) ↦
      rw (e, remove_port)
        (record {
          unicast = forget-unicast p s.macs v.unicast;
          fits = All-erase PortFits p s.ports v.fits;
          keys = NodupKeys-erase p s.ports v.keys;
          counted = ground (arith, v.counted, peer_count-erase p pt s.ports v.keys e);
        })
]

-- The hub registers no peer by `AddPort`.
pub add_port-IsSwitch :
    (p : Port) (sink : ℕ) {s : Switch}
    → is_peer p ≡ false
    → IsSwitch s
    → IsSwitch (add_port p sink s)
unfolding add_port
add_port-IsSwitch (pos n) sink {s} h v = cc
add_port-IsSwitch (negsuc n) sink {s} h v = record {
  unicast = v.unicast;
  fits = All-insert PortFits (negsuc n) _ s.ports (tt, omega arith) v.fits;
  keys = NodupKeys-insert (negsuc n) _ s.ports v.keys;
  counted = elim (Option-cases (lookup (negsuc n) s.ports)) [
    | inl e ↦ rw (peer_count-insert_new (negsuc n) _ s.ports e) v.counted
    | inr (pt, e) ↦ rw (peer_count-insert_old (negsuc n) _ pt s.ports e) v.counted
  ];
}

-- The number found is free, in range, and the lowest such.
pub free_port_lem :
    (tries n k : ℕ) (ports : Dict Port PortState)
    → free_port tries n ports ≡ some k
    → (n ≤ k) × (k < n + tries) × (lookup (pos k) ports ≡ none)
unfolding free_port
free_port_lem zero n k ports h = cc
free_port_lem (suc tries) n k ports h = ground (arith, free_port_lem tries (n + 1) k ports)

pub add_peer-IsSwitch : (sink : ℕ) {s : Switch} → IsSwitch s → IsSwitch (add_peer sink s).1
unfolding add_peer
add_peer-IsSwitch sink {s} v = elim (Option-cases (free_port max_peers 0 s.ports)) [
  | inl e ↦ rw (e, add_peer) v
  | inr (n, e) ↦
      let (_, low, free) = free_port_lem max_peers 0 n s.ports e in
      rw (e, add_peer)
        (record {
          unicast = v.unicast;
          fits = All-insert PortFits (pos n) _ s.ports (omega arith, omega arith) v.fits;
          keys = NodupKeys-insert (pos n) _ s.ports v.keys;
          counted = rw (peer_count-insert_new (pos n) _ s.ports free, v.counted) refl;
        })
]

removed_on_error :
    (p : Port) (failed : Bool) {s : Switch}
    → IsSwitch s
    → IsSwitch (if failed then remove_port p s else s)
removed_on_error p true v = remove_port-IsSwitch p v
removed_on_error p false v = v

pub writer_step-IsSwitch :
    (p : Port) (failed : Bool) {s : Switch} → IsSwitch s → IsSwitch (writer_step p failed s).1
unfolding writer_step
writer_step-IsSwitch p failed {s} v = elim (Option-cases (lookup p s.ports)) [
  | inl e ↦ rw (e, writer_step) v
  | inr (pt, e) ↦ elim (List-cases pt.out) [
    | inl idle ↦ rw (e, writer_step) (rw (idle, writer_step) v)
    | inr (frame, rest, more) ↦
        let fits = (All-lookup PortFits p s.ports v.fits e).1 in
        let short : length rest ≤ out_queue = omega (arith, ap length more) in
        let v' = write-IsSwitch s p pt (record pt { out = rest }) v e short in
        rw (e, writer_step) (rw (more, writer_step) (removed_on_error p failed v'))
  ]
]
