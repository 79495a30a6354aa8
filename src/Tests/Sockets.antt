-- ===== src/Tests/Sockets.antt =====
-- The socket file, the websocket bridge and the relays of the guest's flows at concrete inputs.
use uml_kernel_build.Common.{
  ◌≡◌, refl, true, false, some, List, [], ◌∷◌, arith, if◌then◌else◌, nat_eq, bytes_eq, take, All,
  Bytes, codes,
}
use uml_kernel_build.Unixseq as Sockets
use uml_kernel_build.Unixseq.{
  Identity, Entry, absent, regular, socket, Listener, Outcome, listens, joined, failed, Turn, Turns,
  Place, close,
}
use uml_kernel_build.Unixseq.Bind
use uml_kernel_build.Unixseq.Bind.{calm, alone}
use uml_kernel_build.Unixseq.Close
use uml_kernel_build.Unixseq.Close.{names, own_listener}
use uml_kernel_build.Websocket.{
  serve_ws, bridge_peer, accept_ended, tick, listening, fatal, connect_loop, ws_url, has_code,
  admits,
}
use uml_kernel_build.Websocket.Through
use uml_kernel_build.Websocket.Through.{sent_by_wire, sent_by_ws}
use uml_kernel_build.Websocket.Rebind
use uml_kernel_build.Websocket.Rebind.{is_free, own_ticks}
use uml_kernel_build.Nat.{Addresses, Dials, Nat, on_host, dial_tcp, has, dials_tunnel, covers}
use uml_kernel_build.Nat.Relay
use uml_kernel_build.Nat.Relay.{Round, Exchange, relay_udp, rounds_of, answers}
use uml_kernel_build.Nat.Splice
use uml_kernel_build.Nat.Splice.{
  Input, from_guest, from_host, guest_ends, host_ends, splice, TcpFlow, tcp_handler, cut_flow,
  guest_bytes, host_bytes,
}

abbrev mine : Identity
mine = record { ino = 7; dev = 1 }

abbrev theirs : Identity
theirs = record { ino = 9; dev = 1 }

-- Another instance takes the path before the bind, and its listener is joined.
abbrev race : Turns
race = record alone { bind = record calm { others = λ e. socket theirs true } }

names_lem : Unit {0}
unfolding names is_free Bind.Expected has_code ws_url admits
names_lem = tt

bind_or_connect_spares_example :
    All
      (λ x. Bind.is_stale x ≡ true)
      (Sockets.bind_or_connect mine 0 race (socket theirs false)).1.removed
bind_or_connect_spares_example =
    Bind.bind_or_connect_spares mine 0 race (socket theirs false) refl (λ e. refl) (λ e. refl)
      (λ e. refl) (λ e. refl)

own_bind :
    Sockets.bind_or_connect mine 0 alone absent
    ≡ (listens 384 (own_listener mine), record { entry = socket mine true; removed = [] })
unfolding Bind.Expected
own_bind = Bind.bind_or_connect-alone mine 0 absent

close-bind_or_connect_example :
    close (own_listener mine) (socket theirs true)
    ≡ (if names (socket theirs true) mine then absent else socket theirs true)
close-bind_or_connect_example =
    Close.close-bind_or_connect mine 0 384 absent (socket theirs true) (own_listener mine)
      (record { entry = socket mine true; removed = [] }) own_bind (ground arith)

next_round_example :
    (connect_loop
        (record { me = mine; turns = alone; seen = own_ticks 2 mine (accept_ended ∷ []) }
          ∷ record { me = theirs; turns = alone; seen = [] }
          ∷ [])
        absent
      ≡ fatal (socket mine true))
    × (connect_loop
          (record { me = mine; turns = alone; seen = own_ticks 2 mine (tick absent ∷ []) }
            ∷ record { me = theirs; turns = alone; seen = [] }
            ∷ [])
          absent
        ≡ (if is_free absent then listening (socket theirs true) else fatal absent))
unfolding is_free names
next_round_example = Rebind.next_round mine theirs absent absent 2 refl (ground arith) refl

abbrev two_rounds : List Round
two_rounds =
    record {
      request = some (1 ∷ []);
      written = true;
      arrives = (2 ∷ []) ∷ (3 ∷ []) ∷ [];
      delivered = true;
    }
    ∷ record { request = some (4 ∷ []); written = true; arrives = []; delivered = true }
    ∷ []

relay_udp_order_example :
    Relay.InOrder (relay_udp two_rounds []) (Relay.requests two_rounds) (Relay.arrivals two_rounds)
    × Relay.InLockstep (relay_udp two_rounds [])
relay_udp_order_example = Relay.relay_udp_order two_rounds []

abbrev twice : Bytes → List Bytes
twice request = request ∷ request ∷ []

relay_udp-rounds_of_example : relay_udp (rounds_of twice ((1 ∷ []) ∷ (2 ∷ []) ∷ [])) [] ≡ record {
  to_host = (1 ∷ []) ∷ (2 ∷ []) ∷ [];
  to_guest = take 2 (answers twice ((1 ∷ []) ∷ (2 ∷ []) ∷ []));
  waits = true;
}
relay_udp-rounds_of_example =
    Relay.relay_udp-rounds_of twice ((1 ∷ []) ∷ (2 ∷ []) ∷ []) [] (λ request. cc)

abbrev texts : Addresses
texts = record {
  show = λ a. a;
  parse = λ t. t;
  parse_ip4 = λ t. some t;
  parse_network = λ t. some (t, 24);
  contains = λ sub dst. false;
}

abbrev all_dials : Dials
all_dials = record {
  host_tcp = λ server port. true;
  host_udp = λ server port. true;
  stack_tcp = λ server port. true;
  stack_udp = λ server port. true;
}

abbrev plain_nat : Nat
plain_nat = record {
  resolvers = [];
  local_addrs = [];
  dns_addrs = [];
  tunnel_subnets = [];
  routes = [];
}

tcp_handler-cut_flow_example :
    tcp_handler texts all_dials plain_nat
      (9 ∷ [])
      80
      true
      (from_guest (1 ∷ []) ∷ guest_ends ∷ from_host (2 ∷ []) ∷ [])
    ≡ cut_flow
        (dial_tcp texts all_dials plain_nat (9 ∷ []) 80)
        true
        (guest_bytes (from_guest (1 ∷ []) ∷ []))
        (host_bytes (from_guest (1 ∷ []) ∷ []))
tcp_handler-cut_flow_example =
    Splice.tcp_handler-cut_flow texts all_dials plain_nat (9 ∷ []) 80 true
      (from_guest (1 ∷ []) ∷ []) (from_host (2 ∷ []) ∷ []) guest_ends (refl, tt) refl

-- The answer after the guest's last byte is lost.
half_close :
    tcp_handler texts all_dials plain_nat
      (9 ∷ [])
      80
      true
      (from_guest (1 ∷ []) ∷ guest_ends ∷ from_host (2 ∷ []) ∷ [])
    ≡ Splice.joined
        (on_host (9 ∷ []) 80)
        (record { to_host = 1 ∷ []; to_guest = []; connected = false })
unfolding tcp_handler dial_tcp has dials_tunnel covers splice Splice.fresh Splice.start_flow
half_close = refl

url_with_query :
    ws_url (λ t. t) (codes "wss://h/vde?x=1") (codes "s") ≡ codes "wss://h/vde?x=1&token=s"
unfolding ws_url has_code
url_with_query = refl

abbrev two_frames : List Bytes
two_frames = (1 ∷ 2 ∷ []) ∷ (3 ∷ []) ∷ []

bridge_peer-serve_ws_example :
    (serve_ws true (sent_by_ws (bridge_peer true (sent_by_wire two_frames)).to_ws)).to_wire
    ≡ two_frames
bridge_peer-serve_ws_example =
    Through.bridge_peer-serve_ws two_frames
      ((omega arith, omega arith), ((omega arith, omega arith), tt))
