-- ===== src/Tests/Relays.antt =====
-- Ping relay at concrete inputs.
use uml_kernel_build.Common.{
  ℕ, All, ◌+◌, ◌≤◌, ◌*◌, ◌%◌, ◌^◌, ◌≡◌, refl, true, false, none, some, List, [], ◌∷◌, ◌++◌, arith,
  nat_eq, bytes_eq, length, drop, Bytes, byte_at, slice, cut, copy_n, be16, read16, lookup, erase,
}
use uml_kernel_build.Headers.{Headers}
use uml_kernel_build.Icmp.Checksum.{icmp_checksum, fold_from, sum_from}
use uml_kernel_build.Icmp.Relay.{
  Flow, Relay, request, icmp_flow_ttl, parse_echo_request, handle_frame, handle_reply,
}
use uml_kernel_build.Icmp.Relay.Replies
use uml_kernel_build.Icmp.Relay.Waiting.{RelayCall, IsOther, frame_call, reply_call, relay_calls}
use uml_kernel_build.Icmp.Relay.Loop
use uml_kernel_build.Icmp.Relay.Loop.{Received, packet, socket_closed, new_relay, read_loop}

-- Headers without options, their checksums left 0.
abbrev pub plain_headers : Headers
plain_headers = record {
  protocol = λ b. byte_at b 9;
  header_length = λ b. 4 * (byte_at b 0 % 16);
  total_length = λ b. read16 (slice 2 4 b);
  destination = λ b. slice 16 20 b;
  ip_payload = λ b. cut 20 (read16 (slice 2 4 b)) b;
  udp_port = λ b. read16 (slice 2 4 b);
  ip_header = λ total ttl kind src dst.
      0x45 ∷ 0 ∷ (be16 total ++ (0 ∷ 0 ∷ 0 ∷ 0 ∷ ttl ∷ kind ∷ 0 ∷ 0 ∷ (src ++ dst)));
  udp_header = λ from to src dst payload.
      be16 from ++ (be16 to ++ (be16 (8 + length payload) ++ (0 ∷ 0 ∷ [])));
  ethernet_header = λ src dst kind. dst ++ (src ++ be16 kind);
}

abbrev guest_mac : Bytes
guest_mac = 2 ∷ 0 ∷ 0 ∷ 0 ∷ 0 ∷ 1 ∷ []

abbrev our_mac : Bytes
our_mac = 0x7a ∷ 0x72 ∷ 0x6d ∷ 0x3c ∷ 0xd7 ∷ 0x23 ∷ []

-- The guest 10.0.2.15 pings 1.1.1.1 with id 7, sequence number 9 and one byte.
abbrev ping : Bytes
ping =
    our_mac
    ++ (guest_mac
        ++ (8 ∷ 0 ∷ 0x45 ∷ 0 ∷ 0 ∷ 29 ∷ 0 ∷ 0 ∷ 0 ∷ 0 ∷ 64 ∷ 1 ∷ 0 ∷ 0 ∷ 10 ∷ 0 ∷ 2 ∷ 15 ∷ 1 ∷ 1 ∷ 1
            ∷ 1 ∷ 8 ∷ 0 ∷ 0 ∷ 0 ∷ 0 ∷ 7 ∷ 0 ∷ 9 ∷ 0xab ∷ []))

abbrev idle : Relay
idle = record { src_mac = our_mac; host_id = 500; available = true; flows = []; seq = 65535 }

abbrev reply : Bytes
reply = 0 ∷ 0 ∷ 0 ∷ 0 ∷ 1 ∷ 244 ∷ 0 ∷ 0 ∷ 0xab ∷ []

parsed : parse_echo_request plain_headers ping ≡ request (1 ∷ 1 ∷ 1 ∷ 1 ∷ []) 7 9 (0xab ∷ [])
unfolding parse_echo_request cut
parsed = refl

-- Another guest's frame and a reply that nobody waits for come in between.
abbrev meanwhile : List RelayCall
meanwhile =
    frame_call 101 (λ a. false) true ping
    ∷ reply_call (0 ∷ 0 ∷ 0 ∷ 0 ∷ 1 ∷ 244 ∷ 0 ∷ 5 ∷ []) (1 ∷ 1 ∷ 1 ∷ 1 ∷ [])
    ∷ []

others : All (IsOther ((65535 + 1) % 2 ^ 16) (100 + icmp_flow_ttl)) meanwhile
unfolding IsOther
others = (omega arith, (λ e. omega (arith, e), tt))

relay_reply_example :
    (pkt : Bytes) × (sum : ℕ) × (r1 : Relay) × (r2 : Relay) × (r3 : Relay) × (handle_frame
        plain_headers 100
        (λ a. false)
        true
        ping
        idle
      ≡ some (record { consumed = true; sent = (pkt, 1 ∷ 1 ∷ 1 ∷ 1 ∷ []) ∷ []; relay = r1 }))
    × (read16 (slice 6 8 pkt) ≡ (65535 + 1) % 2 ^ 16)
    × (relay_calls plain_headers meanwhile r1 ≡ some r2)
    × (icmp_checksum (0 ∷ 0 ∷ 0 ∷ 0 ∷ (be16 7 ++ (be16 9 ++ drop 8 reply))) ≡ some sum)
    × (handle_reply plain_headers reply (1 ∷ 1 ∷ 1 ∷ 1 ∷ []) r2
        ≡ some (
          (plain_headers.ethernet_header our_mac (copy_n 6 (slice 6 12 ping)) 0x0800
                ++ (plain_headers.ip_header
                      ((20 + (8 + length (drop 8 reply))) % 2 ^ 16)
                      64
                      1
                      (1 ∷ 1 ∷ 1 ∷ 1 ∷ [])
                      (copy_n 4 (slice 26 30 ping))
                    ++ (0 ∷ 0 ∷ (be16 sum ++ (be16 7 ++ (be16 9 ++ drop 8 reply))))))
              ∷ [],
          r3,
        ))
    × (handle_reply plain_headers reply (1 ∷ 1 ∷ 1 ∷ 1 ∷ []) r3 ≡ some ([], r3))
relay_reply_example =
    Replies.relay_reply plain_headers 100 (λ a. false) ping (1 ∷ 1 ∷ 1 ∷ 1 ∷ []) (0xab ∷ []) 7 9
      idle meanwhile reply (1 ∷ 1 ∷ 1 ∷ 1 ∷ []) refl parsed refl others (omega arith) (omega arith)
      refl refl

-- One ping waits under the number 1, another under 2.
abbrev waiting : Flow
waiting = record {
  guest_mac = guest_mac;
  guest_ip = 10 ∷ 0 ∷ 2 ∷ 15 ∷ [];
  dst = 1 ∷ 1 ∷ 1 ∷ 1 ∷ [];
  id = 7;
  seq = 9;
  deadline = 1000;
  src_mac = our_mac;
}

abbrev two_wait : Relay
two_wait = record (new_relay our_mac (some 500)) {
  flows = (1, waiting) ∷ (2, waiting) ∷ [];
  seq = 2;
}

-- A reply to the first, the same once more, one that comes from no IPv4 address, and the end.
abbrev heard : List Received
heard =
    packet (0 ∷ 0 ∷ 0 ∷ 0 ∷ 1 ∷ 244 ∷ 0 ∷ 1 ∷ 0xab ∷ []) (some (1 ∷ 1 ∷ 1 ∷ 1 ∷ []))
    ∷ packet (0 ∷ 0 ∷ 0 ∷ 0 ∷ 1 ∷ 244 ∷ 0 ∷ 1 ∷ 0xab ∷ []) (some (1 ∷ 1 ∷ 1 ∷ 1 ∷ []))
    ∷ packet (0 ∷ 0 ∷ 0 ∷ 0 ∷ 1 ∷ 244 ∷ 0 ∷ 2 ∷ 0xab ∷ []) none
    ∷ socket_closed
    ∷ []

abbrev passed_on : List Bytes × Relay
passed_on = elim (read_loop plain_headers heard two_wait) [ none ↦ ([], two_wait) | some out ↦ out ]

read_loop_spends_example :
    (frames : List Bytes) × (after : Relay) × (read_loop plain_headers heard two_wait
      ≡ some (frames, after))
    × (length frames + length after.flows ≤ 2)
read_loop_spends_example = Loop.read_loop_spends plain_headers heard two_wait

-- Exactly one frame is delivered, and one ping waits on.
one_each : (length passed_on.0 ≡ 1) × (length passed_on.1.flows ≡ 1)
unfolding new_relay read_loop handle_reply lookup icmp_checksum fold_from sum_from erase cut
one_each = (refl, refl)
