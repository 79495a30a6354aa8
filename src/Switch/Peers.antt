-- ===== src/Switch/Peers.antt =====
-- Which number a peer gets, and when its port goes.
use uml_kernel_build.Common.{
  ℕ, zero, suc, ◌+◌, ◌≤◌, ◌<◌, ◌≡◌, ◌≢◌, inl, inr, refl, ap, ◌∙◌, false, none, some, [], arith,
  Option-cases, nat_eq, bytes_eq, Dict, lookup, lookup-insert, lookup-erase, beq_self,
}
use native.Mathlib.Decide.{ℕ_discrete}
use uml_kernel_build.Switch.{
  pos, Port, port_beq, port_beq_iff, port_eq, max_peers, PortState, Switch, remove_port, free_port,
  add_peer,
}

pub free_port_at :
    (tries n k : ℕ) (ports : Dict Port PortState)
    → n ≤ k
    → k < n + tries
    → ((m : ℕ) → n ≤ m → m < k → lookup (pos m) ports ≢ none)
    → lookup (pos k) ports ≡ none
    → free_port tries n ports ≡ some k
unfolding free_port
free_port_at zero n k ports lo hi taken free = absurd (omega arith)
free_port_at (suc tries) n k ports lo hi taken free = elim (Option-cases (lookup (pos n) ports)) [
  | inl e ↦ elim (ℕ_discrete n k) [
    | yes same ↦ rw (e, free_port) (ap some same)
    | no ne ↦ absurd (taken n (omega arith) (omega arith) e)
  ]
  | inr (pt, e) ↦ elim (ℕ_discrete n k) [
    | yes same ↦ absurd (cc (rw same at e))
    | no ne ↦
        rw (e, free_port)
          (free_port_at tries (n + 1) k ports (omega arith) (omega arith)
            (λ m a b. taken m (omega arith) b) free)
  ]
]

free_port_taken :
    (tries n m : ℕ) (ports : Dict Port PortState)
    → free_port tries n ports ≡ none
    → n ≤ m
    → m < n + tries
    → lookup (pos m) ports ≢ none
unfolding free_port
free_port_taken zero n m ports h lo hi = absurd (omega arith)
free_port_taken (suc tries) n m ports h lo hi = elim (Option-cases (lookup (pos n) ports)) [
  | inl e ↦ absurd (cc (rw (e, free_port) at h))
  | inr (pt, e) ↦ elim (ℕ_discrete n m) [
    | yes same ↦ rw (← same) (λ z. cc)
    | no ne ↦ free_port_taken tries (n + 1) m ports (ground arith) (omega arith) (omega arith)
  ]
]

-- A new peer gets the lowest free number below 32, with an empty queue.
pub add_peer_lowest :
    (sink k : ℕ) (s : Switch)
    → k < max_peers
    → ((m : ℕ) → m < k → lookup (pos m) s.ports ≢ none)
    → lookup (pos k) s.ports ≡ none
    → ((add_peer sink s).0 ≡ some (pos k))
      × (lookup (pos k) (add_peer sink s).1.ports ≡ some (record { sink = sink; out = [] }))
unfolding add_peer
add_peer_lowest sink k s hi taken free =
    let e =
      free_port_at max_peers 0 k s.ports (omega arith) (omega arith) (λ m a b. taken m b) free in
    rw (e, add_peer) (refl, lookup-insert (pos k) (pos k) _ s.ports ∙ rw (beq_self (pos k)) refl)

-- A peer is refused only when all 32 numbers are taken, and the switch is then as it was.
pub add_peer_refused :
    (sink m : ℕ) (s : Switch)
    → (add_peer sink s).0 ≡ none
    → m < max_peers
    → (lookup (pos m) s.ports ≢ none) × ((add_peer sink s).1 ≡ s)
unfolding add_peer
add_peer_refused sink m s h hi = elim (Option-cases (free_port max_peers 0 s.ports)) [
  | inl e ↦
      (free_port_taken max_peers 0 m s.ports e (omega arith) (omega arith), rw (e, add_peer) refl)
  | inr (n, e) ↦ absurd (cc (rw (e, add_peer) at h))
]

pub remove_port_self : (p : Port) (s : Switch) → lookup p (remove_port p s).ports ≡ none
unfolding remove_port
remove_port_self p s = elim (Option-cases (lookup p s.ports)) [
  | inl e ↦ rw (e, remove_port) e
  | inr (pt, e) ↦ rw (e, remove_port) (lookup-erase p p s.ports ∙ rw (beq_self p) refl)
]

remove_port_other :
    (p q : Port) (s : Switch) → p ≢ q → lookup q (remove_port p s).ports ≡ lookup q s.ports
unfolding remove_port
remove_port_other p q s ne = elim (Option-cases (lookup p s.ports)) [
  | inl e ↦ rw (e, remove_port) refl
  | inr (pt, e) ↦
      let differ : port_beq p q ≡ false = ground (arith, port_beq_iff p q) in
      rw (e, remove_port) (lookup-erase p q s.ports ∙ rw differ refl)
]

-- Both the writer and the reader of a wire remove its port when the wire breaks. A peer that joins
-- in between gets the same number where the lower ones are taken, and the second removal takes the
-- new peer's port away.
pub second_removal :
    (sink k : ℕ) (s : Switch)
    → k < max_peers
    → ((m : ℕ) → m < k → lookup (pos m) s.ports ≢ none)
    → ((add_peer sink (remove_port (pos k) s)).0 ≡ some (pos k))
      × (lookup (pos k) (add_peer sink (remove_port (pos k) s)).1.ports
          ≡ some (record { sink = sink; out = [] }))
      × (lookup (pos k) (remove_port (pos k) (add_peer sink (remove_port (pos k) s)).1).ports
          ≡ none)
second_removal sink k s hi taken =
    let s1 = remove_port (pos k) s in
    let (given, there) =
      add_peer_lowest sink k s1 hi
        (λ m below. rw (remove_port_other (pos k) (pos m) s (ground arith)) (taken m below))
        (remove_port_self (pos k) s) in
    (given, there, remove_port_self (pos k) (add_peer sink s1).1)
