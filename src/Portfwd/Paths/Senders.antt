-- ===== src/Portfwd/Paths/Senders.antt =====
-- Which guest socket a host sender's datagrams go to.
use uml_kernel_build.Common.{
  ℕ, ◌+◌, ◌-◌, ◌≤◌, ◌≡◌, inl, inr, ap, Bool, true, false, none, some, List, [], ◌∷◌, ◌++◌, arith,
  ltb, Bool-cases, Option-cases, nat_eq, bytes_eq, Bytes, bytes_beq_self,
}
use uml_kernel_build.Portfwd.Paths.{
  Route, PathTable, udp_idle, from_sender, find_path, touch, receive, reap_paths, reap,
}

find_path-append :
    (ip : Bytes) (port : ℕ) (p : Route) (paths : List Route)
    → find_path ip port paths ≡ none
    → from_sender ip port p ≡ true
    → find_path ip port (paths ++ (p ∷ [])) ≡ some p
unfolding find_path
find_path-append ip port p [] h mine = ground arith
find_path-append ip port p (q ∷ paths) h mine = ground (arith, find_path-append ip port p paths)

find_path-from_sender :
    (ip : Bytes) (port : ℕ) (p : Route) (paths : List Route)
    → find_path ip port paths ≡ some p
    → from_sender ip port p ≡ true
unfolding find_path
find_path-from_sender ip port p [] h = absurd (ground arith)
find_path-from_sender ip port p (q ∷ paths) h = elim (Bool-cases (from_sender ip port q)) [
  | inl mine ↦ let same : q ≡ p = ground arith in rw (← same) mine
  | inr other ↦ find_path-from_sender ip port p paths (rw (other, find_path) at h)
]

find_path-touch :
    (ip : Bytes) (port now : ℕ) (p : Route) (paths : List Route)
    → find_path ip port paths ≡ some p
    → find_path ip port (touch ip port now paths) ≡ some (record p { last = now })
unfolding find_path touch
find_path-touch ip port now p [] h = absurd (ground arith)
find_path-touch ip port now p (q ∷ paths) h = elim (Bool-cases (from_sender ip port q)) [
  | inl mine ↦
      let same : q ≡ p = ground arith in
      rw (mine, touch, find_path)
        (rw mine (ap {A = Route} (λ z. some (record z { last = now })) same))
  | inr other ↦
      let old : find_path ip port paths ≡ some p = rw (other, find_path) at h in
      rw (other, touch, find_path) (rw other (find_path-touch ip port now p paths old))
]

from_sender_self :
    (ip : Bytes) (port guest last : ℕ)
    → from_sender ip port (record { ip = ip; port = port; guest = guest; last = last }) ≡ true
from_sender_self ip port guest last = ground (arith, bytes_beq_self ip)

-- A fresh path of the sender survives the reaper.
find_path-reap :
    (ip : Bytes) (port now : ℕ) (p : Route) (paths : List Route)
    → find_path ip port paths ≡ some p
    → now ≤ p.last + udp_idle
    → find_path ip port (reap_paths now paths).0 ≡ some p
unfolding find_path reap_paths
find_path-reap ip port now p [] h fresh = absurd (ground arith)
find_path-reap ip port now p (q ∷ paths) h fresh = elim (Bool-cases (from_sender ip port q)) [
  | inl mine ↦
      let same : q ≡ p = ground arith in
      let keeps : ltb udp_idle (now - q.last) ≡ false = rw same (ground arith) in
      rw (keeps, reap_paths) (rw (mine, find_path) (ap some same))
  | inr other ↦
      let old : find_path ip port paths ≡ some p = rw (other, find_path) at h in
      let rest = find_path-reap ip port now p paths old fresh in
      elim (Bool-cases (ltb udp_idle (now - q.last))) [
        | inl idle ↦ rw (idle, reap_paths) rest
        | inr busy ↦ rw (busy, reap_paths) (rw (other, find_path) rest)
      ]
]

-- A sender whose datagram went to a guest socket keeps that socket: after a round of the reaper within
-- 30 seconds its next datagram goes to the same one.
pub receive_again :
    (now now' later : ℕ) (opens opens' : Bool) (ip : Bytes) (port guest : ℕ) (r : PathTable)
    → (receive now opens ip port r).0 ≡ some guest
    → now' ≤ now + udp_idle
    → (receive later opens' ip port (reap now' (receive now opens ip port r).1)).0 ≡ some guest
unfolding receive reap
receive_again now now' later opens opens' ip port guest r h fresh =
    elim (Option-cases (find_path ip port r.paths)) [
      | inr (p, e) ↦
          let after = find_path-touch ip port now p r.paths e in
          let kept =
            find_path-reap ip port now' (record p { last = now }) (touch ip port now r.paths) after
              fresh in
          ground (arith, kept)
      | inl e ↦ elim (Bool-cases opens) [
        | inr refused ↦ absurd (ground arith)
        | inl opened ↦
            let p : Route = record { ip = ip; port = port; guest = r.next; last = now } in
            let after =
              find_path-append ip port p r.paths e (from_sender_self ip port r.next now) in
            let kept = find_path-reap ip port now' p (r.paths ++ (p ∷ [])) after fresh in
            ground (arith, kept)
      ]
    ]
