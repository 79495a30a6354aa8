-- ===== src/Nat/Relay.antt =====
-- The relay of one UDP flow, `relayUDP` of vdeplug-go/internal/nat/nat.go.
use uml_kernel_build.Common.{
  ℕ, ◌+◌, ◌≤◌, ◌≡◌, ◌≢◌, inl, inr, refl, Bool, true, false, Option, none, some, List, [], ◌∷◌, ◌++◌,
  map, append_assoc, arith, if◌then◌else◌, Bool-cases, Option-cases, List-cases, nat_eq, bytes_eq,
  length, take, Bytes,
}
use uml_kernel_build.Config.Strings.{Text}
use uml_kernel_build.Nat.{Addresses, Dials, Nat, Socket, refused, dial_udp}

-- One turn of the loop. `request` is the guest's next datagram, none after an idle time or an error;
-- `arrives` are the datagrams that reach the host's socket from the last read to the end of this one's
-- deadline.
pub record Round : Type 0 where
  pub request : Option Bytes
  pub written : Bool
  pub arrives : List Bytes
  pub delivered : Bool

-- What was sent each way, and whether the flow still waits for the guest.
pub record Exchange : Type 0 where
  pub to_host : List Bytes
  pub to_guest : List Bytes
  pub waits : Bool

unfoldable pub answered : Bytes → Bytes → Exchange → Exchange
answered request reply x = record x { to_host = request ∷ x.to_host; to_guest = reply ∷ x.to_guest }

-- `pending` are the datagrams that the host's socket holds.
unfoldable pub relay_udp : List Round → List Bytes → Exchange
unfolding answered
relay_udp [] pending = record { to_host = []; to_guest = []; waits = true }
relay_udp (r ∷ rounds) pending = elim r.request [
  | none ↦ record { to_host = []; to_guest = []; waits = false }
  | some request ↦ elim r.written [
    | false ↦ record { to_host = []; to_guest = []; waits = false }
    | true ↦ elim (pending ++ r.arrives) [
      | [] ↦ record { to_host = request ∷ []; to_guest = []; waits = false }
      | reply ∷ held ↦ elim r.delivered [
        | false ↦ record { to_host = request ∷ []; to_guest = []; waits = false }
        | true ↦ answered request reply (relay_udp rounds held)
      ]
    ]
  ]
]

-- A flow without a socket or without an endpoint ends there.
pub data UdpFlow : Type 0 where
  unserved abandoned : UdpFlow
  relayed : (sock : Socket) (x : Exchange) → UdpFlow

unfoldable pub start_relay : Socket → Bool → List Round → UdpFlow
unfolding relay_udp
start_relay refused endpoint rounds = unserved
start_relay sock endpoint rounds =
    if endpoint then relayed sock (relay_udp rounds []) else abandoned

-- The first result is what the netstack is told, before the socket is there.
unfoldable pub udp_handler : Addresses → Dials → Nat → Text → ℕ → Bool → List Round → Bool × UdpFlow
unfolding start_relay dial_udp
udp_handler a d n dst_ip dst_port endpoint rounds =
    (true, start_relay (dial_udp a d n dst_ip dst_port) endpoint rounds)

-- The guest's datagrams up to the first turn without one, and what reaches the host's socket.
pub requests : List Round → List Bytes
requests [] = []
requests (r ∷ rounds) = elim r.request [ none ↦ [] | some request ↦ request ∷ requests rounds ]

pub arrivals : List Round → List Bytes
arrivals [] = []
arrivals (r ∷ rounds) = r.arrives ++ arrivals rounds

-- One datagram back for each one sent, except for the last.
pub InLockstep : Exchange → Type 0
InLockstep x = (length x.to_guest ≤ length x.to_host) × (length x.to_host ≤ length x.to_guest + 1)

-- Both directions pass on a beginning of what they get.
pub InOrder : Exchange → List Bytes → List Bytes → Type 0
InOrder x sent received =
    (x.to_host ≡ take (length x.to_host) sent) × (x.to_guest ≡ take (length x.to_guest) received)

-- Whatever the guest and the host's socket do, and whichever calls fail: the host gets the guest's
-- datagrams in order up to some point, the guest gets the datagrams of the host's socket in order up to
-- some point, and it gets as many as were sent, or one less.
pub relay_udp_order :
    (rounds : List Round) (pending : List Bytes)
    → InOrder (relay_udp rounds pending) (requests rounds) (pending ++ arrivals rounds)
      × InLockstep (relay_udp rounds pending)
unfolding relay_udp InOrder InLockstep requests arrivals
relay_udp_order [] pending = ground arith
relay_udp_order (r ∷ rounds) pending = elim (Option-cases r.request) [
  | inl e ↦ rw (e, relay_udp, requests) (ground arith)
  | inr (request, e) ↦ elim (Bool-cases r.written) [
    | inr w ↦ rw (e, w, relay_udp, requests) (ground arith)
    | inl w ↦ elim (List-cases (pending ++ r.arrives)) [
      | inl q ↦ rw (e, w, q, relay_udp, requests) (ground arith)
      | inr (reply, held, q) ↦ elim (Bool-cases r.delivered) [
        | inr d ↦ rw (e, w, q, d, relay_udp, requests) (ground arith)
        | inl d ↦
            let ih = relay_udp_order rounds held in
            rw (e, w, q, d, relay_udp, requests, ← append_assoc pending r.arrives (arrivals rounds))
              (ground (arith, ih))
      ]
    ]
  ]
]

-- A guest that sends these datagrams to a service, on sockets that do not fail.
abbrev pub round_of : (Bytes → List Bytes) → Bytes → Round
round_of service request = record {
  request = some request;
  written = true;
  arrives = service request;
  delivered = true;
}

abbrev pub rounds_of : (Bytes → List Bytes) → List Bytes → List Round
rounds_of service requests = map (round_of service) requests

abbrev pub answers : (Bytes → List Bytes) → List Bytes → List Bytes
answers service [] = []
answers service (request ∷ requests) = service request ++ answers service requests

append-empty : (a b : List Bytes) → a ++ b ≡ [] → b ≡ []
append-empty [] b h = h
append-empty (x ∷ a) b h = cc

-- When a service answers each datagram with one or more and no call fails, every datagram is relayed,
-- the flow stays open, and the guest gets the first answers in their order, as many as it sent
-- datagrams: an answer beyond one for each is held until the guest sends again.
pub relay_udp-rounds_of :
    (service : Bytes → List Bytes) (sent : List Bytes) (pending : List Bytes)
    → ((request : Bytes) → service request ≢ [])
    → relay_udp (rounds_of service sent) pending ≡ record {
      to_host = sent;
      to_guest = take (length sent) (pending ++ answers service sent);
      waits = true;
    }
unfolding relay_udp answered
relay_udp-rounds_of service [] pending live = refl
relay_udp-rounds_of service (request ∷ sent) pending live =
    elim (List-cases (pending ++ service request)) [
      | inl q ↦ absurd (live request (append-empty pending (service request) q))
      | inr (reply, held, q) ↦
          let ih = relay_udp-rounds_of service sent held live in
          rw
            (
              ← append_assoc pending (service request) (answers service sent),
              q,
              relay_udp,
              ih,
              answered,
            )
            refl
    ]
