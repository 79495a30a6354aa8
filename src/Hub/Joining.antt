-- ===== src/Hub/Joining.antt =====
-- Which ports the peers of a new hub get, `acceptPeers` of vdeplug-go/main.go.
use uml_kernel_build.Common.{
  ℕ, zero, suc, ◌+◌, ◌≤◌, ◌<◌, ◌≡◌, ◌≢◌, inl, inr, refl, ap, Option, none, some, List, [], ◌∷◌,
  arith, ltb, ◌==◌, if◌then◌else◌, Bool-cases, Option-cases, nat_eq, bytes_eq, Dict, lookup, insert,
  lookup-insert,
}
use uml_kernel_build.Hub.{ports_of, accept_peers}
use uml_kernel_build.Switch as Switches
use uml_kernel_build.Switch.{
  pos, negsuc, Port, port_beq, port_beq_iff, port_eq, max_peers, PortState, Switch, add_port,
  free_port, add_peer,
}
use uml_kernel_build.Switch.Peers.{free_port_at}

-- The numbers below `n` are taken, and no other.
record Filled (n : ℕ) (ports : Dict Port PortState) : Type 0 where
  taken : (m : ℕ) → m < n → lookup (pos m) ports ≢ none
  free : (m : ℕ) → n ≤ m → lookup (pos m) ports ≡ none

-- The ports of consecutive connections from number `n` on: there are 32.
pub numbers : ℕ → List ℕ → List (Option Port)
numbers n [] = []
numbers n (conn ∷ conns) =
    let more = numbers (suc n) conns in
    let refused = numbers n conns in if ltb n max_peers then some (pos n) ∷ more else none ∷ refused

free_port_full :
    (tries n : ℕ) (ports : Dict Port PortState)
    → ((m : ℕ) → m < n + tries → lookup (pos m) ports ≢ none)
    → free_port tries n ports ≡ none
unfolding free_port
free_port_full zero n ports taken = refl
free_port_full (suc tries) n ports taken = elim (Option-cases (lookup (pos n) ports)) [
  | inl e ↦ absurd (taken n (omega arith) e)
  | inr (pt, e) ↦
      rw (e, free_port) (free_port_full tries (n + 1) ports (λ m b. taken m (omega arith)))
]

insert-Filled :
    (n : ℕ) (pt : PortState) (ports : Dict Port PortState)
    → Filled n ports
    → Filled (suc n) (insert (pos n) pt ports)
insert-Filled n pt ports f = record {
  taken = λ m below. rw (lookup-insert (pos n) (pos m) pt ports) (elim (Bool-cases (n == m)) [
    | inl same ↦ rw same (λ z. cc)
    | inr other ↦ rw other (f.taken m (ground (arith, below, other)))
  ]);
  free = λ m above. rw (lookup-insert (pos n) (pos m) pt ports) (ground (arith, f.free m));
}

accept_peers-numbers :
    (n : ℕ) (conns : List ℕ) (s : Switch)
    → n ≤ max_peers
    → Filled n s.ports
    → (accept_peers conns s).0 ≡ numbers n conns
unfolding accept_peers add_peer numbers
accept_peers-numbers n [] s few f = refl
accept_peers-numbers n (conn ∷ conns) s few f = elim (Bool-cases (ltb n max_peers)) [
  | inl room ↦
      let e : free_port max_peers 0 s.ports ≡ some n =
        free_port_at max_peers 0 n s.ports (omega arith) (ground (arith, room))
          (λ m a b. f.taken m b) (f.free n (omega arith)) in
      rw (room, e, accept_peers, add_peer)
        (ap (◌∷◌ (some (pos n))) (
          accept_peers-numbers (suc n) conns _ (ground (arith, room))
            (insert-Filled n (record { sink = conn; out = [] }) s.ports f)))
  | inr full ↦
      let all : n ≡ 32 = ground (arith, full, few) in
      let e : free_port max_peers 0 s.ports ≡ none =
        free_port_full max_peers 0 s.ports (λ m b. f.taken m (omega arith)) in
      rw (full, e, accept_peers, add_peer) (ap (◌∷◌ none) (accept_peers-numbers n conns s few f))
]

-- The connections that a new hub accepts get the ports 0 to 31 in their order, and every later one is
-- refused.
pub accept_peers_order :
    (conns : List ℕ) → (accept_peers conns (ports_of Switches.new)).0 ≡ numbers 0 conns
unfolding ports_of add_port Switches.new insert lookup
accept_peers_order conns =
    accept_peers-numbers 0 conns (ports_of Switches.new) (omega arith)
      (record { taken = λ m b. absurd (omega arith); free = λ m b. refl })
