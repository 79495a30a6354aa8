-- ===== src/Dhcp/Server/Offers.antt =====
-- What the DHCP server promises a client, and the frame that it does not survive.
use uml_kernel_build.Common.{
  ◌++◌, ◌||◌, ℕ, ◌-◌, ◌≡◌, ◌↔◌, ◌⊎◌, inl, inr, refl, ap, ◌∙◌, not, none, some, List, [], ◌∷◌, arith,
  ltb, ◌==◌, Bool-cases, Option-cases, nat_eq, bytes_eq, length, drop, Bytes, slice, copy_n, read16,
}
use uml_kernel_build.Headers.{Headers}
use uml_kernel_build.Dhcp.Pool.{Pool, get_or_assign}
use uml_kernel_build.Dhcp.Pool.Requests.{serve, get_or_assign_stable}
use uml_kernel_build.Dhcp.Server.{
  Messages, Options, panics, replied, request, ack, answer_kind, fill_reply, reply_frame,
  handle_packet, handle_frame, handle_all, log_unparsed,
}

module _ {ℓ} (h : Headers) (m : Messages {ℓ}) (o : Options m.Text) (server_mac : Bytes) where
  -- The server panics on a UDP payload exactly when it is no DHCP message, has 245 bytes and is the end
  -- of the frame's buffer.
  pub handle_packet_panics :
      (spare : ℕ) (payload guest_mac : Bytes) (p : Pool)
      → ((handle_packet h m o server_mac spare payload guest_mac p).0 ≡ panics)
        ↔ ((m.from_bytes payload ≡ none) × (length payload ≡ 245) × (spare ≡ 0))
  unfolding handle_packet log_unparsed answer_kind
  handle_packet_panics spare payload guest_mac p = elim (Option-cases (m.from_bytes payload)) [
    | inl e ↦ (λ q. ground arith, λ (_, n, z). ground arith)
    | inr (msg, e) ↦ (λ q. ground arith, λ (e', n, z). cc)
  ]

  Answered : Bytes → Bytes → Pool → Bytes → Pool → m.Message → Type ℓ
  Answered payload guest_mac p frame p' msg =
      (kind : ℕ) × (reply : m.Message) × (ip : Bytes) × (mask : Bytes) × (get_or_assign
          (m.client_address msg) p
        ≡ (some ip, p'))
      × (m.parse_mask o.network ≡ some mask)
      × (frame
          ≡ reply_frame h m o server_mac
              (m.to_bytes (fill_reply h m o server_mac ip mask kind reply)) guest_mac (some ip)
              (m.is_broadcast msg))

  answered :
      (spare : ℕ) (payload guest_mac frame : Bytes) (p p' : Pool) (msg : m.Message)
      → handle_packet h m o server_mac spare payload guest_mac p ≡ (replied frame, p')
      → m.from_bytes payload ≡ some msg
      → Answered payload guest_mac p frame p' msg
  unfolding handle_packet Answered
  answered spare payload guest_mac frame p p' msg e parsed =
      elim (Option-cases (answer_kind h m o server_mac (m.kind_of msg))) [
        | inl none_kind ↦ absurd (ground arith)
        | inr (kind, k) ↦ elim (Option-cases (m.reply_from msg)) [
          | inl no_reply ↦ absurd (ground arith)
          | inr (reply, r) ↦ elim (Option-cases (get_or_assign (m.client_address msg) p).0) [
            | inl full ↦ absurd (ground arith)
            | inr (ip, got) ↦ elim (Option-cases (m.parse_mask o.network)) [
              | inl no_mask ↦ absurd (ground arith)
              | inr (mask, at) ↦ (kind, reply, ip, mask, ground arith, at, ground arith)
            ]
          ]
        ]
      ]

  handle_packet-pool :
      (spare : ℕ) (payload guest_mac : Bytes) (p : Pool)
      → ((handle_packet h m o server_mac spare payload guest_mac p).1 ≡ p)
        ⊎ ((mac : Bytes) × ((handle_packet h m o server_mac spare payload guest_mac p).1
              ≡ (get_or_assign mac p).1))
  unfolding handle_packet
  handle_packet-pool spare payload guest_mac p = elim (Option-cases (m.from_bytes payload)) [
    | inl e ↦ inl (ground arith)
    | inr (msg, e) ↦ elim (Option-cases (answer_kind h m o server_mac (m.kind_of msg))) [
      | inl none_kind ↦ inl (ground arith)
      | inr (kind, k) ↦ elim (Option-cases (m.reply_from msg)) [
        | inl no_reply ↦ inl (ground arith)
        | inr (reply, r) ↦ inr (m.client_address msg, ground arith)
      ]
    ]
  ]

  handle_frame-pool :
      (behind frame : Bytes) (p : Pool)
      → ((handle_frame h m o server_mac behind frame p).1 ≡ p)
        ⊎ ((mac : Bytes) × ((handle_frame h m o server_mac behind frame p).1
              ≡ (get_or_assign mac p).1))
  unfolding handle_frame
  handle_frame-pool behind frame p = elim (Option-cases (h.ip_payload (drop 14 frame ++ behind))) [
    | inl short ↦ inl (ground arith)
    | inr (udp, e) ↦
        elim (handle_packet-pool
          (length (drop 14 frame ++ behind) - h.header_length (drop 14 frame) - length udp)
          (drop 8 udp) (copy_n 6 (slice 6 12 frame)) p) [
            | inl same ↦ inl (ground arith)
            | inr (mac, got) ↦
                elim (Bool-cases (
                  ltb (length frame) 42
                  || not (read16 (slice 12 14 frame) == 0x0800)
                  || not (h.protocol (drop 14 frame) == 17)
                  || (ltb (length udp) 8 || not (h.udp_port udp == 67)))) [
                    | inl other ↦ inl (ground arith)
                    | inr ours ↦ inr (mac, ground arith)
                  ]
          ]
  ]

  handle_all-serve :
      (frames : List (Bytes × Bytes)) (p : Pool)
      → (macs : List Bytes) × (handle_all h m o server_mac frames p ≡ serve macs p)
  unfolding handle_all serve
  handle_all-serve [] p = ([], refl)
  handle_all-serve ((behind, frame) ∷ frames) p =
      let (macs, e) = handle_all-serve frames (handle_frame h m o server_mac behind frame p).1 in
      elim (handle_frame-pool behind frame p) [
        | inl same ↦ (macs, e ∙ ap (serve macs) same)
        | inr (mac, got) ↦ (mac ∷ macs, e ∙ ap (serve macs) got)
      ]

  -- A client that was offered an address is granted that address, whatever frames the server handled in
  -- between: the reply to a later DHCPREQUEST with the same hardware address carries it, and the pool
  -- stays as it is. The request must be one that dhcpv4 can build a reply to.
  pub offer_kept :
      (spare spare' : ℕ) (payload payload' guest_mac guest_mac' frame : Bytes) (p p' : Pool)
      (msg msg' reply' : m.Message) (frames : List (Bytes × Bytes))
      → handle_packet h m o server_mac spare payload guest_mac p ≡ (replied frame, p')
      → m.from_bytes payload ≡ some msg
      → m.from_bytes payload' ≡ some msg'
      → m.kind_of msg' ≡ request
      → m.client_address msg' ≡ m.client_address msg
      → m.reply_from msg' ≡ some reply'
      → (ip : Bytes) × (mask : Bytes) × (kind : ℕ) × (reply : m.Message) × (frame
          ≡ reply_frame h m o server_mac
              (m.to_bytes (fill_reply h m o server_mac ip mask kind reply))
              guest_mac
              (some ip)
              (m.is_broadcast msg))
        × (handle_packet h m o server_mac spare' payload' guest_mac'
              (handle_all h m o server_mac frames p')
            ≡ (
              replied (
                  reply_frame h m o server_mac
                    (m.to_bytes (fill_reply h m o server_mac ip mask ack reply'))
                    guest_mac'
                    (some ip)
                    (m.is_broadcast msg')),
              handle_all h m o server_mac frames p',
            ))
  unfolding handle_packet answer_kind Answered
  offer_kept spare spare' payload payload' guest_mac guest_mac' frame p p' msg msg' reply' frames e
        parsed parsed' asks same built =
      let (kind, reply, ip, mask, got, at, sent) =
        answered spare payload guest_mac frame p p' msg e parsed in
      let (macs, served) = handle_all-serve frames p' in
      let kept = get_or_assign_stable (m.client_address msg) p ip macs (ap (λ r. r.0) got) in
      let held : get_or_assign (m.client_address msg') (handle_all h m o server_mac frames p')
          ≡ (some ip, handle_all h m o server_mac frames p') =
        ground (arith, kept, served, same, got) in
      (ip, mask, kind, reply, sent, ground arith)
