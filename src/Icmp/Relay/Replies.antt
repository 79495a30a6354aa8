-- ===== src/Icmp/Relay/Replies.antt =====
-- A ping of a guest and its reply, through the relay of vdeplug-go/internal/nat/icmp.go.
use uml_kernel_build.Common.{
  ◌||◌, ℕ, ◌+◌, ◌%◌, ◌^◌, ◌≤◌, ◌≡◌, inl, inr, refl, ◌∙◌, Bool, true, false, not, none, some, List,
  All, [], ◌∷◌, ◌++◌, arith, ltb, ◌==◌, Bool-cases, nat_eq, bytes_eq, length, drop, Bytes, IsU16,
  byte_at, slice, copy_n, be16, read16, lookup, insert, erase, lookup-insert, lookup-erase,
  beq_self,
}
use uml_kernel_build.Headers.{Headers}
use uml_kernel_build.Icmp.Checksum.{icmp_checksum, icmp_checksum_total}
use uml_kernel_build.Icmp.Relay.{
  Flow, Relay, request, icmp_flow_ttl, echo_packet, sweep, parse_echo_request, handle_frame,
  handle_reply,
}
use uml_kernel_build.Icmp.Relay.Total.{echo_packet_total, build_echo_reply_total, handle_reply_lem}
use uml_kernel_build.Icmp.Relay.Waiting.{RelayCall, IsOther, relay_calls, relay_calls-waits}

-- The sequence number that stands in a packet.
echo_packet-seq :
    (kind id seq : ℕ) (payload pkt : Bytes)
    → IsU16 seq
    → echo_packet kind id seq payload ≡ some pkt
    → read16 (slice 6 8 pkt) ≡ seq
unfolding echo_packet
echo_packet-seq kind id seq payload pkt small h =
    let (sum, e) = icmp_checksum_total (kind ∷ 0 ∷ 0 ∷ 0 ∷ (be16 id ++ (be16 seq ++ payload))) in
    let same : some (kind ∷ 0 ∷ (be16 sum ++ (be16 id ++ (be16 seq ++ payload)))) ≡ some pkt =
      rw (e, echo_packet) at h in
    ground arith

module _ (h : Headers) where
  -- What a relayed request leaves behind.
  abbrev pub relayed : ℕ → Bytes → ℕ → ℕ → Bytes → Relay → Relay
  relayed now dst id seq frame r =
      let flow : Flow = record {
        guest_mac = copy_n 6 (slice 6 12 frame);
        guest_ip = copy_n 4 (slice 26 30 frame);
        dst = dst;
        id = id;
        seq = seq;
        deadline = now + icmp_flow_ttl;
        src_mac = r.src_mac;
      } in
      let our_seq = (r.seq + 1) % 2 ^ 16 in
      record r { seq = our_seq; flows = insert our_seq flow (sweep now r.flows) }

  handle_frame-request :
      (now : ℕ) (own : Bytes → Bool) (frame dst payload : Bytes) (id seq : ℕ) (r : Relay)
      → r.available ≡ true
      → parse_echo_request h frame ≡ request dst id seq payload
      → own dst ≡ false
      → (pkt : Bytes) × (echo_packet 8 r.host_id ((r.seq + 1) % 2 ^ 16) payload ≡ some pkt)
        × (handle_frame h now own true frame r
            ≡ some (record {
              consumed = true;
              sent = (pkt, dst) ∷ [];
              relay = relayed now dst id seq frame r;
            }))
  unfolding handle_frame
  handle_frame-request now own frame dst payload id seq r up parsed foreign =
      let (pkt, e) = echo_packet_total 8 r.host_id ((r.seq + 1) % 2 ^ 16) payload in
      (pkt, e, simp (up, parsed, foreign, e, handle_frame))

  handle_reply_found :
      (pkt src : Bytes) (flow : Flow) (r : Relay)
      → 8 ≤ length pkt
      → byte_at pkt 0 ≡ 0
      → lookup (read16 (slice 6 8 pkt)) r.flows ≡ some flow
      → (sum : ℕ) × (icmp_checksum (0 ∷ 0 ∷ 0 ∷ 0 ∷ (be16 flow.id ++ (be16 flow.seq ++ drop 8 pkt)))
          ≡ some sum)
        × (handle_reply h pkt src r
            ≡ some (
              (h.ethernet_header flow.src_mac flow.guest_mac 0x0800
                    ++ (h.ip_header
                          ((20 + (8 + length (drop 8 pkt))) % 2 ^ 16)
                          64
                          1
                          src
                          flow.guest_ip
                        ++ (0 ∷ 0 ∷ (be16 sum ++ (be16 flow.id ++ (be16 flow.seq ++ drop 8 pkt))))))
                  ∷ [],
              record r { flows = erase (read16 (slice 6 8 pkt)) r.flows },
            ))
  handle_reply_found pkt src flow r long kind found =
      let (sum, sums, built) = build_echo_reply_total h flow src (drop 8 pkt) in
      let echo : (ltb (length pkt) 8 || not (byte_at pkt 0 == 0)) ≡ false =
        ground (arith, long, kind) in
      (sum, sums, handle_reply_lem h pkt src r ∙ rw (echo, found, built) refl)

  handle_reply_late :
      (pkt src : Bytes) (r : Relay)
      → lookup (read16 (slice 6 8 pkt)) r.flows ≡ none
      → handle_reply h pkt src r ≡ some ([], r)
  handle_reply_late pkt src r gone =
      let effect = handle_reply_lem h pkt src r in
      elim (Bool-cases (ltb (length pkt) 8 || not (byte_at pkt 0 == 0))) [
        | inl other ↦ effect ∙ rw other refl
        | inr reply ↦ effect ∙ rw (reply, gone) refl
      ]

  -- A foreign echo request is relayed under a sequence number of the relay's own. Whatever the guests
  -- send and the host's socket delivers after it, in at most 65535 calls, the frames within 30 seconds
  -- and the replies with other numbers: the first reply with that number is delivered as one frame. It
  -- goes from the relay's MAC to the MAC that the request came from, in IPv4 from the source of the
  -- reply to the address that the request came from, and is an echo reply with the request's id and
  -- sequence number, the reply's payload and a checksum. The same reply again delivers nothing.
  pub relay_reply :
      (now : ℕ) (own : Bytes → Bool) (frame dst payload : Bytes) (id seq : ℕ) (r : Relay)
      (between : List RelayCall) (reply src : Bytes)
      → r.available ≡ true
      → parse_echo_request h frame ≡ request dst id seq payload
      → own dst ≡ false
      → All (IsOther ((r.seq + 1) % 2 ^ 16) (now + icmp_flow_ttl)) between
      → length between ≤ 65535
      → 8 ≤ length reply
      → byte_at reply 0 ≡ 0
      → read16 (slice 6 8 reply) ≡ (r.seq + 1) % 2 ^ 16
      → (pkt : Bytes) × (sum : ℕ) × (r1 : Relay) × (r2 : Relay) × (r3 : Relay) × (handle_frame h now
            own true frame r
          ≡ some (record { consumed = true; sent = (pkt, dst) ∷ []; relay = r1 }))
        × (read16 (slice 6 8 pkt) ≡ (r.seq + 1) % 2 ^ 16)
        × (relay_calls h between r1 ≡ some r2)
        × (icmp_checksum (0 ∷ 0 ∷ 0 ∷ 0 ∷ (be16 id ++ (be16 seq ++ drop 8 reply))) ≡ some sum)
        × (handle_reply h reply src r2
            ≡ some (
              (h.ethernet_header r.src_mac (copy_n 6 (slice 6 12 frame)) 0x0800
                    ++ (h.ip_header
                          ((20 + (8 + length (drop 8 reply))) % 2 ^ 16)
                          64
                          1
                          src
                          (copy_n 4 (slice 26 30 frame))
                        ++ (0 ∷ 0 ∷ (be16 sum ++ (be16 id ++ (be16 seq ++ drop 8 reply))))))
                  ∷ [],
              r3,
            ))
        × (handle_reply h reply src r3 ≡ some ([], r3))
  relay_reply now own frame dst payload id seq r between reply src up parsed foreign others few long
        kind number =
      let our_seq = (r.seq + 1) % 2 ^ 16 in
      let r1 = relayed now dst id seq frame r in
      let (pkt, made, handled) =
        handle_frame-request now own frame dst payload id seq r up parsed foreign in
      let flow : Flow = record {
        guest_mac = copy_n 6 (slice 6 12 frame);
        guest_ip = copy_n 4 (slice 26 30 frame);
        dst = dst;
        id = id;
        seq = seq;
        deadline = now + icmp_flow_ttl;
        src_mac = r.src_mac;
      } in
      let waiting : lookup our_seq r1.flows ≡ some flow =
        lookup-insert our_seq our_seq flow (sweep now r.flows) ∙ rw (beq_self our_seq) refl in
      let (r2, went, waits) =
        relay_calls-waits h our_seq 0 flow between r1 waiting others (omega arith) (omega arith)
          (omega (arith, few)) in
      let k = read16 (slice 6 8 reply) in
      let found : lookup k r2.flows ≡ some flow = rw number waits in
      let (sum, sums, delivered) = handle_reply_found reply src flow r2 long kind found in
      let r3 = record r2 { flows = erase k r2.flows } in
      let gone : lookup k r3.flows ≡ none = lookup-erase k k r2.flows ∙ rw (beq_self k) refl in
      (
        pkt,
        sum,
        r1,
        r2,
        r3,
        handled,
        echo_packet-seq 8 r.host_id our_seq payload pkt (omega arith) made,
        went,
        sums,
        delivered,
        handle_reply_late reply src r3 gone,
      )
