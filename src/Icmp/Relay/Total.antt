-- ===== src/Icmp/Relay/Total.antt =====
-- The accesses of the handlers of vdeplug-go/internal/nat/icmp.go, and the bytes of a reply.
use uml_kernel_build.Common.{
  ℕ, ◌+◌, ◌-◌, ◌%◌, ◌^◌, ◌≤◌, ◌≡◌, ◌≢◌, inl, inr, refl, ap, ◌∙◌, true, false, not, ◌||◌, Option,
  none, some, List, [], ◌∷◌, ◌++◌, arith, ltb, ◌==◌, if◌then◌else◌, Bool-cases, Option-cases,
  nat_eq, bytes_eq, length, drop, length-drop, take_of_length-le, Bytes, byte_at, slice, cut, be16,
  read16, lookup, erase,
}
use uml_kernel_build.Headers.{Headers}
use uml_kernel_build.Icmp.Checksum.{icmp_checksum, icmp_checksum_total}
use uml_kernel_build.Icmp.Relay.{
  Flow, Relay, panics, echo_packet, parse_echo_request, build_echo_reply, handle_reply,
}

pub echo_packet_total :
    (kind id seq : ℕ) (payload : Bytes)
    → (pkt : Bytes) × (echo_packet kind id seq payload ≡ some pkt)
unfolding echo_packet
echo_packet_total kind id seq payload =
    let (sum, e) = icmp_checksum_total (kind ∷ 0 ∷ 0 ∷ 0 ∷ (be16 id ++ (be16 seq ++ payload))) in
    (kind ∷ 0 ∷ (be16 sum ++ (be16 id ++ (be16 seq ++ payload))), rw (e, echo_packet) refl)

first_byte : (pkt : Bytes) → byte_at (slice 0 1 pkt) 0 ≡ byte_at pkt 0
first_byte [] = refl
first_byte (x ∷ pkt) = refl

module _ (h : Headers) where
  -- No frame makes the parser slice out of range, whatever its header fields claim.
  pub parse_echo_request_safe : (frame : Bytes) → parse_echo_request h frame ≢ panics
  unfolding parse_echo_request cut
  parse_echo_request_safe frame =
      ground (arith, length-drop (14 + h.header_length (drop 14 frame)) frame)

  -- The frame for the guest: its headers, and an echo reply with the id and number that it used.
  pub build_echo_reply_total :
      (flow : Flow) (src payload : Bytes)
      → (sum : ℕ) × (icmp_checksum (0 ∷ 0 ∷ 0 ∷ 0 ∷ (be16 flow.id ++ (be16 flow.seq ++ payload)))
          ≡ some sum)
        × (build_echo_reply h flow src payload
            ≡ some (
                h.ethernet_header flow.src_mac flow.guest_mac 0x0800
                ++ (h.ip_header ((20 + (8 + length payload)) % 2 ^ 16) 64 1 src flow.guest_ip
                    ++ (0 ∷ 0 ∷ (be16 sum ++ (be16 flow.id ++ (be16 flow.seq ++ payload)))))))
  unfolding build_echo_reply echo_packet
  build_echo_reply_total flow src payload =
      let (sum, e) =
        icmp_checksum_total (0 ∷ 0 ∷ 0 ∷ 0 ∷ (be16 flow.id ++ (be16 flow.seq ++ payload))) in
      (sum, e, rw (e, echo_packet, build_echo_reply) refl)

  -- `handle_reply` where its accesses are known to be in range.
  abbrev pub reply_effect : Bytes → Bytes → Relay → Option (List Bytes × Relay)
  reply_effect pkt src r =
      if ltb (length pkt) 8 || not (byte_at pkt 0 == 0)
      then some ([], r)
      else elim (lookup (read16 (slice 6 8 pkt)) r.flows) [
        | none ↦ some ([], r)
        | some flow ↦ elim (build_echo_reply h flow src (drop 8 pkt)) [
          | none ↦ none
          | some frame ↦
              some (frame ∷ [], record r { flows = erase (read16 (slice 6 8 pkt)) r.flows })
        ]
      ]

  cut_in : (lo hi : ℕ) (b : Bytes) → lo ≤ hi → hi ≤ length b → cut lo hi b ≡ some (slice lo hi b)
  unfolding cut
  cut_in lo hi b order within = ground arith

  pub handle_reply_lem :
      (pkt src : Bytes) (r : Relay) → handle_reply h pkt src r ≡ reply_effect pkt src r
  unfolding handle_reply
  handle_reply_lem pkt src r = elim (Bool-cases (ltb (length pkt) 8)) [
    | inl short ↦ rw (short, handle_reply) refl
    | inr long ↦
        let enough : 8 ≤ length pkt = ground (arith, long) in
        let rest : slice 8 (length pkt) pkt ≡ drop 8 pkt =
          take_of_length-le (length pkt - 8) (drop 8 pkt) (omega (arith, length-drop 8 pkt)) in
        let payload : cut 8 (length pkt) pkt ≡ some (drop 8 pkt) =
          cut_in 8 (length pkt) pkt enough (omega arith) ∙ ap some rest in
        let kind = cut_in 0 1 pkt (omega arith) (omega (arith, enough)) in
        let number = cut_in 6 8 pkt (omega arith) enough in
        elim (Bool-cases (byte_at pkt 0 == 0)) [
          | inr other ↦
              let other' : (byte_at (slice 0 1 pkt) 0 == 0) ≡ false =
                ap (λ b. b == 0) (first_byte pkt) ∙ other in
              rw (long, kind, other', other, handle_reply) refl
          | inl reply ↦
              let reply' : (byte_at (slice 0 1 pkt) 0 == 0) ≡ true =
                ap (λ b. b == 0) (first_byte pkt) ∙ reply in
              elim (Option-cases (lookup (read16 (slice 6 8 pkt)) r.flows)) [
                | inl unknown ↦ rw (long, kind, reply', reply, number, unknown, handle_reply) refl
                | inr (flow, found) ↦
                    elim (Option-cases (build_echo_reply h flow src (drop 8 pkt))) [
                      | inl none_built ↦
                          rw
                            (
                              long, kind, reply', reply, number, found, payload, none_built,
                              handle_reply,
                            )
                            refl
                      | inr (frame, built) ↦
                          rw
                            (long, kind, reply', reply, number, found, payload, built, handle_reply)
                            refl
                    ]
              ]
        ]
  ]
