-- ===== src/Link.antt =====
-- vdeplug-go/internal/link/link.go: the Ethernet endpoint between the segment and the netstack, and
-- the frames of vdeplug-go/internal/unixseq/unixseq.go.
pub mod Counters
pub mod Answers
pub mod Names
use uml_kernel_build.Common.{
  ℕ, ◌+◌, ◌%◌, ◌^◌, Bool, true, false, Option, none, some, List, [], ◌∷◌, ◌++◌, ltb, leb, ◌==◌,
  if◌then◌else◌, nat_eq, bytes_eq, length, take, Bytes, slice, read16,
}
use uml_kernel_build.Headers.{Headers}

abbrev pub frame_max : ℕ
frame_max = 9216 + 14 + 4

abbrev pub min_frame : ℕ
min_frame = 14

-- uint64 counters.
pub record Stats : Type 0 where
  pub rx_packets : ℕ
  pub tx_packets : ℕ
  pub rx_bytes : ℕ
  pub tx_bytes : ℕ
  pub dropped : ℕ

-- `sink` says whether `SetSink` has been called.
pub record Endpoint : Type 0 where
  pub link_addr : Bytes
  pub guest_mac : Option Bytes
  pub sink : Bool
  pub stats : Stats

-- `Uint64.Add`
unfoldable pub add64 : ℕ → ℕ → ℕ
add64 a b = (a + b) % 2 ^ 64

unfoldable pub new : Bytes → Endpoint
new link_addr = record {
  link_addr = link_addr;
  guest_mac = none;
  sink = false;
  stats = record { rx_packets = 0; tx_packets = 0; rx_bytes = 0; tx_bytes = 0; dropped = 0 };
}

unfoldable pub set_sink : Endpoint → Endpoint
set_sink e = record e { sink = true }

unfoldable pub drop_one : Stats → Stats
unfolding add64
drop_one st = record st { dropped = add64 st.dropped 1 }

-- The types that the netstack takes, by its own numbers: IPv4, IPv6 and ARP.
unfoldable pub protocol_of : ℕ → Option ℕ
protocol_of kind =
    if kind == 0x0800
    then some 0x0800
    else if kind == 0x86DD
    then some 0x86DD
    else if kind == 0x0806
    then some 0x0806
    else none

-- `Inject`: what the netstack is given, with its protocol. `consume` is gVisor's `LinkHeader().Consume`.
unfoldable pub inject : (Bytes → Bool) → Bytes → Endpoint → List (ℕ × Bytes) × Endpoint
unfolding drop_one add64 protocol_of
inject consume frame e =
    let shed = record e { stats = drop_one e.stats } in
    let e' : Endpoint = record e { guest_mac = some (slice 6 12 frame) } in
    let shed' : Endpoint = record e' { stats = drop_one e.stats } in
    if ltb (length frame) min_frame
    then ([], shed)
    else elim (protocol_of (read16 (slice 12 14 frame))) [
      | none ↦ ([], shed')
      | some proto ↦
          if consume frame
          then (
            (proto, frame) ∷ [],
            record e' {
              stats = record e.stats {
                rx_packets = add64 e.stats.rx_packets 1;
                rx_bytes = add64 e.stats.rx_bytes (length frame);
              };
            },
          )
          else ([], shed')
    ]

-- Consecutive calls of `Inject`.
unfoldable pub inject_all : (Bytes → Bool) → List Bytes → Endpoint → List (ℕ × Bytes) × Endpoint
unfolding inject
inject_all consume [] e = ([], e)
inject_all consume (frame ∷ frames) e =
    let (got, e1) = inject consume frame e in
    let (more, e2) = inject_all consume frames e1 in (got ++ more, e2)

-- One round of the pump `Start`: the frame that the sink is given.
unfoldable pub pump : Bytes → Endpoint → List Bytes × Endpoint
unfolding drop_one add64
pump frame e =
    if e.sink
    then (
      frame ∷ [],
      record e {
        stats = record e.stats {
          tx_packets = add64 e.stats.tx_packets 1;
          tx_bytes = add64 e.stats.tx_bytes (length frame);
        };
      },
    )
    else ([], record e { stats = drop_one e.stats })

-- The destination of a packet whose route has the link address `remote`, empty if none is known.
unfoldable pub destination : Bytes → Endpoint → Bytes
destination remote e =
    if length remote == 0
    then (elim e.guest_mac [ some m ↦ m | none ↦ 255 ∷ 255 ∷ 255 ∷ 255 ∷ 255 ∷ 255 ∷ [] ])
    else remote

unfoldable pub add_header : Headers → Bytes → ℕ → Endpoint → Bytes
unfolding destination
add_header h remote proto e = h.ethernet_header e.link_addr (destination remote e) proto

-- What `sendmsg` and `recvmsg` answer: interrupted by a signal, an error, or done, with the message.
pub data Call : Type 0 where
  interrupted broken : Call
  done : (message : Bytes) → Call

-- What a call of `SendFrame` or `RecvFrame` returns; `pending` while the answers do not suffice.
pub data Returned : Type 0 where
  pending eof failed sent : Returned
  received : (n : ℕ) (content : Bytes) → Returned

-- `SendFrame`, here and on `unixseq.Conn`.
unfoldable pub send_frame : List Call → Returned
send_frame [] = pending
send_frame (interrupted ∷ calls) = send_frame calls
send_frame (broken ∷ calls) = failed
send_frame (done message ∷ calls) = sent

-- `RecvFrame` of `unixseq.Conn` with a buffer of `size` bytes: what does not fit is cut off.
unfoldable pub recv_wire : ℕ → List Call → Returned
recv_wire size [] = pending
recv_wire size (interrupted ∷ calls) = recv_wire size calls
recv_wire size (broken ∷ calls) = failed
recv_wire size (done message ∷ calls) =
    let content = take size message in
    if length content == 0 then eof else received (length content) content

-- `RecvFrame` of the endpoint, which also notes the source of 12 bytes or more.
unfoldable pub recv_frame : ℕ → List Call → Endpoint → Returned × Endpoint
recv_frame size [] e = (pending, e)
recv_frame size (interrupted ∷ calls) e = recv_frame size calls e
recv_frame size (broken ∷ calls) e = (failed, e)
recv_frame size (done message ∷ calls) e =
    let content = take size message in
    if length content == 0
    then (eof, e)
    else if leb 12 (length content)
    then (received (length content) content, record e { guest_mac = some (slice 6 12 content) })
    else (received (length content) content, e)
