-- ===== src/Icmp/Relay.antt =====
-- `ICMPRelay` of vdeplug-go/internal/nat/icmp.go: the flow table, and the rewriting of echo requests
-- and replies; NewICMPRelay and readLoop are in Loop. The socket's send is an argument that says
-- whether it succeeds.
pub mod Total
pub mod Waiting
pub mod Replies
pub mod Loop
use uml_kernel_build.Common.{
  ◌||◌, ℕ, ◌+◌, ◌-◌, ◌*◌, ◌%◌, ◌^◌, Bool, true, false, not, Option, none, some, List, [], ◌∷◌, ◌++◌,
  ltb, ◌==◌, if◌then◌else◌, nat_eq, bytes_eq, length, drop, Bytes, byte_at, slice, cut, copy_n,
  be16, read16, Dict, lookup, insert, erase,
}
use uml_kernel_build.Headers.{Headers}
use uml_kernel_build.Icmp.Checksum.{icmp_checksum}

pub record Flow : Type 0 where
  pub guest_mac : Bytes
  pub guest_ip : Bytes
  pub dst : Bytes
  pub id : ℕ
  pub seq : ℕ
  pub deadline : ℕ
  pub src_mac : Bytes

-- `available` is false for the nil relay and for one without a socket.
pub record Relay : Type 0 where
  pub src_mac : Bytes
  pub host_id : ℕ
  pub available : Bool
  pub flows : Dict ℕ Flow
  pub seq : ℕ

pub data EchoRequest : Type 0 where
  panics no_request : EchoRequest
  request : (dst : Bytes) (id seq : ℕ) (payload : Bytes) → EchoRequest

-- `consumed` is the result of `HandleFrame`, `sent` what the socket was given, with its destination.
pub record Handled : Type 0 where
  pub consumed : Bool
  pub sent : List (Bytes × Bytes)
  pub relay : Relay

-- Nanoseconds.
abbrev pub icmp_flow_ttl : ℕ
icmp_flow_ttl = 30 * 1_000_000_000

-- An ICMP echo message, type 8 or 0.
unfoldable pub echo_packet : ℕ → ℕ → ℕ → Bytes → Option Bytes
echo_packet kind id seq payload =
    let body = be16 id ++ (be16 seq ++ payload) in
    elim (icmp_checksum (kind ∷ 0 ∷ 0 ∷ 0 ∷ body)) [
      | none ↦ none
      | some sum ↦ some (kind ∷ 0 ∷ (be16 sum ++ body))
    ]

unfoldable pub sweep : ℕ → Dict ℕ Flow → Dict ℕ Flow
sweep now [] = []
sweep now ((k, flow) ∷ flows) =
    let rest = sweep now flows in if ltb flow.deadline now then rest else (k, flow) ∷ rest

module _ (h : Headers) where
  open h use {protocol, header_length, total_length, destination, ip_header, ethernet_header}

  unfoldable pub parse_echo_request : Bytes → EchoRequest
  unfolding cut
  parse_echo_request frame =
      let ip = drop 14 frame in
      let ihl = header_length ip in
      let icmp = drop (14 + ihl) frame in
      let claimed = total_length ip in
      let total =
        if ltb claimed (ihl + 8) || ltb (length frame) (14 + claimed)
        then length frame - 14
        else claimed in
      if ltb (length frame) 42
      then no_request
      else if not (read16 (slice 12 14 frame) == 0x0800)
      then no_request
      else if not (protocol ip == 1)
      then no_request
      else if ltb (length frame) (14 + ihl + 8)
      then no_request
      else if not (byte_at icmp 0 == 8)
      then no_request
      else elim (cut 8 (total - ihl) icmp) [
        | none ↦ panics
        | some payload ↦
            request (copy_n 4 (destination ip)) (read16 (slice 4 6 icmp)) (read16 (slice 6 8 icmp))
              payload
      ]

  unfoldable pub build_echo_reply : Flow → Bytes → Bytes → Option Bytes
  unfolding echo_packet
  build_echo_reply flow reply_src payload =
      let ip_len = 20 + (8 + length payload) in
      elim (echo_packet 0 flow.id flow.seq payload) [
        | none ↦ none
        | some icmp ↦ some (
            ethernet_header flow.src_mac flow.guest_mac 0x0800
            ++ (ip_header (ip_len % 2 ^ 16) 64 1 reply_src flow.guest_ip ++ icmp))
      ]

  -- `own` is the map of the netstack's addresses. `none` is a panic or a checksum without end.
  unfoldable pub handle_frame : ℕ → (Bytes → Bool) → Bool → Bytes → Relay → Option Handled
  unfolding parse_echo_request echo_packet sweep
  handle_frame now own send_ok frame r =
      let passed : Handled = record { consumed = false; sent = []; relay = r } in
      if not r.available then some passed else elim (parse_echo_request frame) [
        | panics ↦ none
        | no_request ↦ some passed
        | request dst id seq payload ↦
            if own dst
            then some passed
            else let flow : Flow = record {
              guest_mac = copy_n 6 (slice 6 12 frame);
              guest_ip = copy_n 4 (slice 26 30 frame);
              dst = dst;
              id = id;
              seq = seq;
              deadline = now + icmp_flow_ttl;
              src_mac = r.src_mac;
            } in
              let our_seq = (r.seq + 1) % 2 ^ 16 in
              let flows = insert our_seq flow (sweep now r.flows) in
              elim (echo_packet 8 r.host_id our_seq payload) [
                | none ↦ none
                | some pkt ↦
                    if send_ok
                    then some (record {
                      consumed = true;
                      sent = (pkt, dst) ∷ [];
                      relay = record r { seq = our_seq; flows = flows };
                    })
                    else some (record {
                      consumed = false;
                      sent = (pkt, dst) ∷ [];
                      relay = record r { seq = our_seq; flows = erase our_seq flows };
                    })
              ]
      ]

  -- What is delivered to the segment, and the relay after it; `none` is a panic.
  unfoldable pub handle_reply : Bytes → Bytes → Relay → Option (List Bytes × Relay)
  unfolding build_echo_reply
  handle_reply pkt reply_src r = if ltb (length pkt) 8 then some ([], r) else elim (cut 0 1 pkt) [
    | none ↦ none
    | some kind ↦ if not (byte_at kind 0 == 0) then some ([], r) else elim (cut 6 8 pkt) [
      | none ↦ none
      | some number ↦ elim (lookup (read16 number) r.flows) [
        | none ↦ some ([], r)
        | some flow ↦ elim (cut 8 (length pkt) pkt) [
          | none ↦ none
          | some payload ↦ elim (build_echo_reply flow reply_src payload) [
            | none ↦ none
            | some frame ↦ some (frame ∷ [], record r { flows = erase (read16 number) r.flows })
          ]
        ]
      ]
    ]
  ]
