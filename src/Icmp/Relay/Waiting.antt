-- ===== src/Icmp/Relay/Waiting.antt =====
-- What the relay may do between a request and its reply: other replies and other frames of the guests, as
-- `HandleFrame` and `handleReply` of vdeplug-go/internal/nat/icmp.go deal with them.
use uml_kernel_build.Common.{
  ℕ, suc, ◌+◌, ◌%◌, ◌^◌, ◌≤◌, ◌<◌, ◌≡◌, ◌≢◌, ◌⊎◌, inl, inr, refl, ◌∙◌, Bool, true, false, not, ◌||◌,
  Option, none, some, List, [], ◌∷◌, ◌++◌, arith, ltb, ◌==◌, Bool-cases, Option-cases, nat_eq,
  bytes_eq, length, drop, All, Bytes, byte_at, slice, copy_n, be16, read16, Dict, lookup, insert,
  erase, lookup-insert, lookup-erase,
}
use uml_kernel_build.Headers.{Headers}
use uml_kernel_build.Icmp.Relay.{
  Flow, Relay, Handled, EchoRequest, panics, no_request, request, icmp_flow_ttl, sweep,
  parse_echo_request, handle_frame, handle_reply,
}
use uml_kernel_build.Icmp.Relay.Total.{
  echo_packet_total, parse_echo_request_safe, build_echo_reply_total, handle_reply_lem,
}

pub data RelayCall : Type 0 where
  frame_call : (now : ℕ) (own : Bytes → Bool) (send_ok : Bool) (frame : Bytes) → RelayCall
  reply_call : (pkt src : Bytes) → RelayCall

-- The frame comes by the deadline, the reply has another number.
unfoldable pub IsOther : ℕ → ℕ → RelayCall → Type 0
IsOther number deadline (frame_call now own send_ok frame) = now ≤ deadline
IsOther number deadline (reply_call pkt src) = read16 (slice 6 8 pkt) ≢ number

lookup-sweep :
    (now k : ℕ) (flow : Flow) (m : Dict ℕ Flow)
    → lookup k m ≡ some flow
    → now ≤ flow.deadline
    → lookup k (sweep now m) ≡ some flow
unfolding lookup sweep
lookup-sweep now k flow [] e soon = cc
lookup-sweep now k flow ((j, f) ∷ m) e soon = ground (arith, lookup-sweep now k flow m)

module _ (h : Headers) where
  unfoldable pub relay_call : RelayCall → Relay → Option Relay
  unfolding handle_frame handle_reply
  relay_call (frame_call now own send_ok frame) r = elim (handle_frame h now own send_ok frame r) [
    | none ↦ none
    | some x ↦ some x.relay
  ]
  relay_call (reply_call pkt src) r = elim (handle_reply h pkt src r) [
    | none ↦ none
    | some (frames, r') ↦ some r'
  ]

  unfoldable pub relay_calls : List RelayCall → Relay → Option Relay
  unfolding relay_call
  relay_calls [] r = some r
  relay_calls (x ∷ xs) r = elim (relay_call x r) [ none ↦ none | some r1 ↦ relay_calls xs r1 ]

  -- The flow waits on, and the number that was given last has moved on by at most one.
  Keeps : ℕ → Flow → Relay → Relay → Type 0
  Keeps k flow r r' =
      (lookup k r'.flows ≡ some flow) × ((r'.seq ≡ r.seq) ⊎ (r'.seq ≡ (r.seq + 1) % 2 ^ 16))

  after_reply :
      (pkt src : Bytes) (frames : List Bytes) (r r' : Relay)
      → handle_reply h pkt src r ≡ some (frames, r')
      → relay_call (reply_call pkt src) r ≡ some r'
  unfolding relay_call
  after_reply pkt src frames r r' e = rw (e, relay_call) refl

  after_frame :
      (now : ℕ) (own : Bytes → Bool) (send_ok : Bool) (frame : Bytes) (r : Relay) (x : Handled)
      → handle_frame h now own send_ok frame r ≡ some x
      → relay_call (frame_call now own send_ok frame) r ≡ some x.relay
  unfolding relay_call
  after_frame now own send_ok frame r x e = rw (e, relay_call) refl

  call_reply-Keeps :
      (k : ℕ) (flow : Flow) (pkt src : Bytes) (r : Relay)
      → lookup k r.flows ≡ some flow
      → read16 (slice 6 8 pkt) ≢ k
      → (r' : Relay) × (relay_call (reply_call pkt src) r ≡ some r') × Keeps k flow r r'
  unfolding Keeps
  call_reply-Keeps k flow pkt src r waits other =
      let number = read16 (slice 6 8 pkt) in
      let effect = handle_reply_lem h pkt src r in
      elim (Bool-cases (ltb (length pkt) 8 || not (byte_at pkt 0 == 0))) [
        | inl skipped ↦
            (r, after_reply pkt src [] r r (effect ∙ rw skipped refl), (waits, inl refl))
        | inr echo ↦ elim (Option-cases (lookup number r.flows)) [
          | inl unknown ↦
              (r, after_reply pkt src [] r r (effect ∙ rw (echo, unknown) refl), (waits, inl refl))
          | inr (found_flow, found) ↦
              let (sum, sums, built) = build_echo_reply_total h found_flow src (drop 8 pkt) in
              let frame =
                h.ethernet_header found_flow.src_mac found_flow.guest_mac 0x0800
                ++ (h.ip_header ((20 + (8 + length (drop 8 pkt))) % 2 ^ 16) 64 1 src
                      found_flow.guest_ip
                    ++ (0
                        ∷ 0
                        ∷ (be16 sum
                            ++ (be16 found_flow.id ++ (be16 found_flow.seq ++ drop 8 pkt))))) in
              let after = record r { flows = erase number r.flows } in
              let differ : (number == k) ≡ false = ground (arith, other) in
              (
                after,
                after_reply pkt src (frame ∷ []) r after (effect ∙ rw (echo, found, built) refl),
                (lookup-erase number k r.flows ∙ rw differ waits, inl refl),
              )
        ]
      ]

  call_frame-parsed :
      (p : EchoRequest) (k : ℕ) (flow : Flow) (now : ℕ) (own : Bytes → Bool) (send_ok : Bool)
      (frame : Bytes) (r : Relay)
      → r.available ≡ true
      → parse_echo_request h frame ≡ p
      → lookup k r.flows ≡ some flow
      → now ≤ flow.deadline
      → (r.seq + 1) % 2 ^ 16 ≢ k
      → (r' : Relay) × (relay_call (frame_call now own send_ok frame) r ≡ some r')
        × Keeps k flow r r'
  unfolding Keeps handle_frame
  call_frame-parsed panics k flow now own send_ok frame r up parsed waits soon other =
      absurd (parse_echo_request_safe h frame parsed)
  call_frame-parsed no_request k flow now own send_ok frame r up parsed waits soon other = (
    r,
    after_frame now own send_ok frame r (record { consumed = false; sent = []; relay = r })
        (simp (up, parsed, handle_frame)),
    (waits, inl refl),
  )
  call_frame-parsed (request dst id seq payload) k flow now own send_ok frame r up parsed waits soon
        other =
      let next = (r.seq + 1) % 2 ^ 16 in
      let (pkt, made) = echo_packet_total 8 r.host_id next payload in
      let anew : Flow = record {
        guest_mac = copy_n 6 (slice 6 12 frame);
        guest_ip = copy_n 4 (slice 26 30 frame);
        dst = dst;
        id = id;
        seq = seq;
        deadline = now + icmp_flow_ttl;
        src_mac = r.src_mac;
      } in
      let flows = insert next anew (sweep now r.flows) in
      let differ : (next == k) ≡ false = ground (arith, other) in
      let kept : lookup k flows ≡ some flow =
        lookup-insert next k anew (sweep now r.flows)
        ∙ rw differ (lookup-sweep now k flow r.flows waits soon) in
      elim (Bool-cases (own dst)) [
        | inl ours ↦ (
          r,
          after_frame now own send_ok frame r (record { consumed = false; sent = []; relay = r })
              (simp (up, parsed, ours, handle_frame)),
          (waits, inl refl),
        )
        | inr foreign ↦ elim (Bool-cases send_ok) [
          | inl sends ↦ (
            record r { seq = next; flows = flows },
            after_frame now own send_ok frame r
                (record {
                  consumed = true;
                  sent = (pkt, dst) ∷ [];
                  relay = record r { seq = next; flows = flows };
                })
                (simp (up, parsed, foreign, made, sends, handle_frame)),
            (kept, inr refl),
          )
          | inr fails ↦ (
            record r { seq = next; flows = erase next flows },
            after_frame now own send_ok frame r
                (record {
                  consumed = false;
                  sent = (pkt, dst) ∷ [];
                  relay = record r { seq = next; flows = erase next flows };
                })
                (simp (up, parsed, foreign, made, fails, handle_frame)),
            (lookup-erase next k flows ∙ rw differ kept, inr refl),
          )
        ]
      ]

  call_frame-Keeps :
      (k : ℕ) (flow : Flow) (now : ℕ) (own : Bytes → Bool) (send_ok : Bool) (frame : Bytes)
      (r : Relay)
      → lookup k r.flows ≡ some flow
      → now ≤ flow.deadline
      → (r.seq + 1) % 2 ^ 16 ≢ k
      → (r' : Relay) × (relay_call (frame_call now own send_ok frame) r ≡ some r')
        × Keeps k flow r r'
  unfolding handle_frame
  call_frame-Keeps k flow now own send_ok frame r waits soon other = elim (Bool-cases r.available) [
    | inl up ↦
        call_frame-parsed (parse_echo_request h frame) k flow now own send_ok frame r up refl waits
          soon other
    | inr off ↦ (
      r,
      after_frame now own send_ok frame r (record { consumed = false; sent = []; relay = r })
          (simp (off, handle_frame)),
      unfold Keeps in (waits, inl refl),
    )
  ]

  relay_call-Keeps :
      (k : ℕ) (flow : Flow) (x : RelayCall) (r : Relay)
      → lookup k r.flows ≡ some flow
      → IsOther k flow.deadline x
      → (r.seq + 1) % 2 ^ 16 ≢ k
      → (r' : Relay) × (relay_call x r ≡ some r') × Keeps k flow r r'
  unfolding IsOther
  relay_call-Keeps k flow (frame_call now own send_ok frame) r waits soon other =
      call_frame-Keeps k flow now own send_ok frame r waits soon other
  relay_call-Keeps k flow (reply_call pkt src) r waits differs other =
      call_reply-Keeps k flow pkt src r waits differs

  -- Fewer than 65536 calls that do not concern the flow let it wait.
  pub relay_calls-waits :
      (k m : ℕ) (flow : Flow) (xs : List RelayCall) (r : Relay)
      → lookup k r.flows ≡ some flow
      → All (IsOther k flow.deadline) xs
      → k < 2 ^ 16
      → r.seq ≡ (k + m) % 2 ^ 16
      → m + length xs < 65536
      → (r' : Relay) × (relay_calls xs r ≡ some r') × (lookup k r'.flows ≡ some flow)
  unfolding relay_calls Keeps
  relay_calls-waits k m flow [] r waits others small at few = (r, refl, waits)
  relay_calls-waits k m flow (x ∷ xs) r waits others small at few =
      let (r1, first, kept) = relay_call-Keeps k flow x r waits others.0 (omega arith) in
      let (waits1, moved) = kept in
      elim moved [
        | inl same ↦
            let (r2, rest, still) =
              relay_calls-waits k m flow xs r1 waits1 others.1 small (same ∙ at) (omega arith) in
            (r2, rw (first, relay_calls) rest, still)
        | inr next ↦
            let (r2, rest, still) =
              relay_calls-waits k (suc m) flow xs r1 waits1 others.1 small (omega arith)
                (omega arith) in
            (r2, rw (first, relay_calls) rest, still)
      ]
