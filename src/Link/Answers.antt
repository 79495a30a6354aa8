-- ===== src/Link/Answers.antt =====
-- Whom the endpoint answers, and what its reads return.
use uml_kernel_build.Common.{
  ℕ, ◌≤◌, ◌<◌, ◌≡◌, inl, inr, refl, sym, ap, ◌∙◌, Bool, true, false, some, List, [], ◌∷◌, ◌++◌,
  arith, ltb, ◌==◌, Bool-cases, Option-cases, nat_eq, bytes_eq, length, take, All, length-take,
  Bytes, slice, read16,
}
use uml_kernel_build.Headers.{Headers}
use uml_kernel_build.Link.{
  Endpoint, drop_one, protocol_of, inject, inject_all, destination, add_header, Call, interrupted,
  broken, done, received, recv_wire, recv_frame,
}

module _ (consume : Bytes → Bool) where
  inject_short :
      (frame : Bytes) (e : Endpoint)
      → length frame < 14
      → (inject consume frame e).1 ≡ record e { stats = drop_one e.stats }
  unfolding inject
  inject_short frame e h =
      let short : ltb (length frame) 14 ≡ true = ground arith in rw (short, inject) refl

  inject-guest_mac :
      (frame : Bytes) (e : Endpoint)
      → 14 ≤ length frame
      → (inject consume frame e).1.guest_mac ≡ some (slice 6 12 frame)
  unfolding inject
  inject-guest_mac frame e h =
      let long : ltb (length frame) 14 ≡ false = ground arith in
      elim (Option-cases (protocol_of (read16 (slice 12 14 frame)))) [
        | inl other ↦ rw (long, inject) (rw (other, inject) refl)
        | inr (proto, known) ↦ elim (Bool-cases (consume frame)) [
          | inl y ↦ rw (long, inject) (rw (known, inject) (rw y refl))
          | inr n ↦ rw (long, inject) (rw (known, inject) (rw n refl))
        ]
      ]

  inject-link_addr :
      (frame : Bytes) (e : Endpoint) → (inject consume frame e).1.link_addr ≡ e.link_addr
  unfolding inject
  inject-link_addr frame e = ground arith

  inject_all_short :
      (frames : List Bytes) (e : Endpoint)
      → All (λ (f : Bytes). length f < 14) frames
      → ((inject_all consume frames e).1.guest_mac ≡ e.guest_mac)
        × ((inject_all consume frames e).1.link_addr ≡ e.link_addr)
  unfolding inject_all
  inject_all_short [] e h = (refl, refl)
  inject_all_short (frame ∷ frames) e (short, more) =
      let (m, a) = inject_all_short frames (inject consume frame e).1 more in
      let same = inject_short frame e short in
      (m ∙ ap (λ (x : Endpoint). x.guest_mac) same, a ∙ ap (λ (x : Endpoint). x.link_addr) same)

  inject_all_last :
      (before : List Bytes) (frame : Bytes) (after : List Bytes) (e : Endpoint)
      → 14 ≤ length frame
      → All (λ (f : Bytes). length f < 14) after
      → ((inject_all consume (before ++ (frame ∷ after)) e).1.guest_mac ≡ some (slice 6 12 frame))
        × ((inject_all consume (before ++ (frame ∷ after)) e).1.link_addr ≡ e.link_addr)
  unfolding inject_all
  inject_all_last [] frame after e long short =
      let (m, a) = inject_all_short after (inject consume frame e).1 short in
      (m ∙ inject-guest_mac frame e long, a ∙ inject-link_addr frame e)
  inject_all_last (f ∷ before) frame after e long short =
      let (m, a) = inject_all_last before frame after (inject consume f e).1 long short in
      (m, a ∙ inject-link_addr f e)

  add_header_lem :
      (h : Headers) (proto : ℕ) (e : Endpoint) (mac addr : Bytes)
      → e.guest_mac ≡ some mac
      → e.link_addr ≡ addr
      → add_header h [] proto e ≡ h.ethernet_header addr mac proto
  unfolding add_header destination
  add_header_lem h proto e mac addr m a = rw (m, a, add_header, destination) refl

  -- A packet of the netstack for which no link address is known goes to the source of the last frame of
  -- at least 14 bytes that was injected, whichever station on the segment that was, and even if the
  -- netstack was not given this frame.
  pub add_header_last :
      (h : Headers) (before : List Bytes) (frame : Bytes) (after : List Bytes) (proto : ℕ)
      (e : Endpoint)
      → 14 ≤ length frame
      → All (λ (f : Bytes). length f < 14) after
      → add_header h [] proto (inject_all consume (before ++ (frame ∷ after)) e).1
        ≡ h.ethernet_header e.link_addr (slice 6 12 frame) proto
  unfolding add_header destination
  add_header_last h before frame after proto e long short =
      let (m, a) = inject_all_last before frame after e long short in
      add_header_lem h proto (inject_all consume (before ++ (frame ∷ after)) e).1 (slice 6 12 frame)
        e.link_addr m a

-- The endpoint and a peer's wire read alike, whatever the calls answer. A frame that is returned is not
-- empty, fits the buffer, and is the start of a message; the calls before it were interrupted.
pub recv_frame_sound :
    (size n : ℕ) (content : Bytes) (calls : List Call) (e : Endpoint)
    → ((recv_frame size calls e).0 ≡ recv_wire size calls)
      × (recv_wire size calls ≡ received n content
          → (0 < n)
            × (n ≤ size)
            × (length content ≡ n)
            × (message : Bytes) × (before : List Call) × (after : List Call) × (calls
                ≡ before ++ (done message ∷ after))
            × All (λ (c : Call). c ≡ interrupted) before
            × (content ≡ take size message))
unfolding recv_frame recv_wire
recv_frame_sound size n content [] e = (refl, λ h. cc)
recv_frame_sound size n content (broken ∷ calls) e = (refl, λ h. cc)
recv_frame_sound size n content (interrupted ∷ calls) e =
    let (same, read) = recv_frame_sound size n content calls e in
    (
      same,
      λ h.
          let (some_, fits, long, message, before, after, at, all, whole) = read h in
          (
            some_,
            fits,
            long,
            message,
            interrupted ∷ before,
            after,
            ap (◌∷◌ interrupted) at,
            (refl, all),
            whole,
          ),
    )
recv_frame_sound size n content (done message ∷ calls) e =
    elim (Bool-cases (length (take size message) == 0)) [
      | inl empty ↦ (ground arith, λ h. absurd (ground arith))
      | inr full ↦ (
        ground arith,
        λ h.
            let got : received (length (take size message)) (take size message)
                ≡ received n content =
              ground arith in
            let long : length (take size message) ≡ n = ground arith in
            let same : take size message ≡ content = ground arith in
            (
              ground arith,
              omega (arith, length-take size message),
              rw (← same) long,
              message,
              [],
              calls,
              refl,
              tt,
              sym same,
            ),
      )
    ]
