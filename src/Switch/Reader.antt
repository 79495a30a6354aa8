-- ===== src/Switch/Reader.antt =====
-- The reader of one peer's wire, `peerReader` of vdeplug-go/main.go, at the switch.
use uml_kernel_build.Common.{
  ℕ, ◌≡◌, ◌≢◌, inl, inr, refl, none, List, [], ◌∷◌, ◌++◌, arith, ltb, ◌==◌, if◌then◌else◌,
  Bool-cases, Option-cases, nat_eq, bytes_eq, length, All, Bytes, Dict, lookup,
}
use uml_kernel_build.Switch.{
  Port, port_beq, port_eq, port_beq_iff, MacEntry, Switch, Sent, forget, remove_port, forward,
}
use uml_kernel_build.Switch.Peers.{remove_port_self}

-- The frames of the wire in order, each with its time of arrival; an empty one ends the wire.
unfoldable pub read_frames : Port → List (ℕ × Bytes) → Switch → List Sent × Switch
read_frames p [] s = ([], s)
read_frames p ((now, frame) ∷ frames) s =
    if length frame == 0
    then ([], s)
    else if ltb (length frame) 14
    then read_frames p frames s
    else let (sent, s1) = forward now p frame s in
      let (more, s2) = read_frames p frames s1 in (sent ++ more, s2)

-- At the end of the wire, by an error or an empty frame, its port is removed.
unfoldable pub peer_reader : Port → List (ℕ × Bytes) → Switch → List Sent × Switch
unfolding read_frames
peer_reader p frames s = let (sent, s1) = read_frames p frames s in (sent, remove_port p s1)

pub forget-All : (p : Port) (macs : Dict Bytes MacEntry) → All (λ e. e.1.port ≢ p) (forget p macs)
unfolding forget
forget-All p [] = tt
forget-All p ((mac, e) ∷ macs) = elim (Bool-cases (port_beq e.port p)) [
  | inl mine ↦ rw (mine, forget) (forget-All p macs)
  | inr other ↦ rw (other, forget) (ground (arith, port_beq_iff e.port p), forget-All p macs)
]

pub remove_port-macs : (p : Port) (s : Switch) → (remove_port p s).macs ≡ forget p s.macs
unfolding remove_port
remove_port-macs p s = elim (Option-cases (lookup p s.ports)) [
  | inl e ↦ rw (e, remove_port) refl
  | inr (pt, e) ↦ rw (e, remove_port) refl
]

-- Whatever a peer sends, at the end of its wire its port is gone and no address leads to it, neither
-- one that was learned from its frames nor an older one.
pub peer_reader_leaves :
    (p : Port) (frames : List (ℕ × Bytes)) (s : Switch)
    → (lookup p (peer_reader p frames s).1.ports ≡ none)
      × All (λ e. e.1.port ≢ p) (peer_reader p frames s).1.macs
unfolding peer_reader
peer_reader_leaves p frames s =
    let s1 = (read_frames p frames s).1 in
    (remove_port_self p s1, rw (remove_port-macs p s1) (forget-All p s1.macs))
