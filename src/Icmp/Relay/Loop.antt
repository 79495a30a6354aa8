-- ===== src/Icmp/Relay/Loop.antt =====
-- The life of the relay's socket, `NewICMPRelay` and `readLoop` of vdeplug-go/internal/nat/icmp.go.
use uml_kernel_build.Common.{
  ◌∙◌, ◌^◌, ◌%◌, be16, ℕ, ◌+◌, ◌≤◌, ◌<◌, ◌≡◌, inl, inr, refl, true, false, not, ◌||◌, Option, none,
  some, List, [], ◌∷◌, ◌++◌, arith, ltb, ◌==◌, Bool-cases, Option-cases, nat_eq, bytes_eq, length,
  drop, length-append, Bytes, byte_at, slice, read16, Dict, lookup, erase,
}
use uml_kernel_build.Headers.{Headers}
use uml_kernel_build.Icmp.Relay.{Flow, Relay, handle_reply}
use uml_kernel_build.Icmp.Relay.Total.{build_echo_reply_total, handle_reply_lem}

-- `opened` is the echo id of the host's socket, none if it cannot be had.
unfoldable pub new_relay : Bytes → Option ℕ → Relay
new_relay src_mac opened = elim opened [
  | none ↦ record { src_mac = src_mac; host_id = 0; available = false; flows = []; seq = 0 }
  | some id ↦ record { src_mac = src_mac; host_id = id; available = true; flows = []; seq = 0 }
]

-- What the socket delivers: a packet with its source, none if that is no IPv4 address, or its end.
pub data Received : Type 0 where
  packet : (pkt : Bytes) (src : Option Bytes) → Received
  socket_closed : Received

module _ (h : Headers) where
  -- The frames that are delivered to the segment, and the relay after them; `none` is a panic.
  unfoldable pub read_loop : List Received → Relay → Option (List Bytes × Relay)
  unfolding handle_reply
  read_loop [] r = some ([], r)
  read_loop (socket_closed ∷ xs) r = some ([], r)
  read_loop (packet pkt none ∷ xs) r = read_loop xs r
  read_loop (packet pkt (some src) ∷ xs) r = elim (handle_reply h pkt src r) [
    | none ↦ none
    | some (frames, r1) ↦ elim (read_loop xs r1) [
      | none ↦ none
      | some (more, r2) ↦ some (frames ++ more, r2)
    ]
  ]

  length-erase-le : (k : ℕ) (m : Dict ℕ Flow) → length (erase k m) ≤ length m
  unfolding erase
  length-erase-le k [] = omega arith
  length-erase-le k ((j, f) ∷ m) = ground (arith, length-erase-le k m)

  length-erase-lt :
      (k : ℕ) (m : Dict ℕ Flow) (f : Flow) → lookup k m ≡ some f → length (erase k m) < length m
  unfolding erase lookup
  length-erase-lt k [] f e = cc
  length-erase-lt k ((j, g) ∷ m) f e = ground (arith, length-erase-lt k m f, length-erase-le k m)

  -- One reply uses up one flow, and no packet makes the handler panic.
  handle_reply_spends :
      (pkt src : Bytes) (r : Relay)
      → (frames : List Bytes) × (r' : Relay) × (handle_reply h pkt src r ≡ some (frames, r'))
        × (length frames + length r'.flows ≤ length r.flows)
  handle_reply_spends pkt src r =
      let seq = read16 (slice 6 8 pkt) in
      let effect = handle_reply_lem h pkt src r in
      elim (Bool-cases (ltb (length pkt) 8 || not (byte_at pkt 0 == 0))) [
        | inl skipped ↦ ([], r, effect ∙ rw skipped refl, omega arith)
        | inr echo ↦ elim (Option-cases (lookup seq r.flows)) [
          | inl unknown ↦ ([], r, effect ∙ rw (echo, unknown) refl, omega arith)
          | inr (flow, found) ↦
              let (sum, sums, built) = build_echo_reply_total h flow src (drop 8 pkt) in
              (
                (h.ethernet_header flow.src_mac flow.guest_mac 0x0800
                      ++ (h.ip_header ((20 + (8 + length (drop 8 pkt))) % 2 ^ 16) 64 1 src
                            flow.guest_ip
                          ++ (0
                              ∷ 0
                              ∷ (be16 sum ++ (be16 flow.id ++ (be16 flow.seq ++ drop 8 pkt))))))
                    ∷ [],
                record r { flows = erase seq r.flows },
                effect ∙ rw (echo, found, built) refl,
                ground (arith, length-erase-lt seq r.flows flow found),
              )
        ]
      ]

  -- However many packets the host's socket delivers, of any length and from whomever, the relay neither
  -- indexes one out of range nor computes a checksum without end; the guests get at most one reply for
  -- each ping that waits, and each reply that is delivered ends the wait of one.
  pub read_loop_spends :
      (xs : List Received) (r : Relay)
      → (frames : List Bytes) × (r' : Relay) × (read_loop xs r ≡ some (frames, r'))
        × (length frames + length r'.flows ≤ length r.flows)
  unfolding read_loop
  read_loop_spends [] r = ([], r, refl, omega arith)
  read_loop_spends (socket_closed ∷ xs) r = ([], r, refl, omega arith)
  read_loop_spends (packet pkt none ∷ xs) r = read_loop_spends xs r
  read_loop_spends (packet pkt (some src) ∷ xs) r =
      let (now, r1, one, few) = handle_reply_spends pkt src r in
      let (more, r2, rest, fewer) = read_loop_spends xs r1 in
      (
        now ++ more,
        r2,
        rw (one, rest, read_loop) refl,
        omega (arith, length-append now more, few, fewer),
      )
