-- ===== src/Guest/Pings.antt =====
-- The pings of the stand-in at the hub's relay.
use uml_kernel_build.Common.{
  ℕ, ◌*◌, ◌%◌, ◌^◌, ◌<◌, ◌≡◌, refl, ap, some, [], ◌∷◌, ◌++◌, nat_eq, bytes_eq, length, by_four,
  by_six, Bytes, byte_at, slice, cut, be16, read16, read16-be16,
}
use uml_kernel_build.Headers.{Headers}
use uml_kernel_build.Icmp.Checksum.{icmp_checksum_total}
use uml_kernel_build.Icmp.Checksum as Sums
use uml_kernel_build.Icmp.Relay.{request, parse_echo_request}
use uml_kernel_build.Guest.{checksum, payload_from, payload, icmp_echo}

checksum_total : (b : Bytes) → (sum : ℕ) × (checksum b ≡ some sum)
unfolding checksum Sums.icmp_checksum
checksum_total b = icmp_checksum_total b

icmp_echo_lem :
    (src_mac dst_mac src_ip dst_ip : Bytes) (seq s t : ℕ)
    → checksum
        ((0x45 ∷ 0 ∷ (be16 84 ++ (0 ∷ 0 ∷ 0 ∷ 0 ∷ 64 ∷ 1 ∷ []))) ++ (0 ∷ 0 ∷ (src_ip ++ dst_ip)))
      ≡ some s
    → checksum (8 ∷ 0 ∷ 0 ∷ 0 ∷ (be16 1 ++ (be16 seq ++ payload))) ≡ some t
    → icmp_echo src_mac dst_mac src_ip dst_ip seq
      ≡ some (
          dst_mac
          ++ (src_mac
              ++ (be16 0x0800
                  ++ ((0x45 ∷ 0 ∷ (be16 84 ++ (0 ∷ 0 ∷ 0 ∷ 0 ∷ 64 ∷ 1 ∷ [])))
                      ++ (be16 s
                          ++ (src_ip
                              ++ (dst_ip
                                  ++ (8 ∷ 0 ∷ (be16 t ++ (be16 1 ++ (be16 seq ++ payload)))))))))))
unfolding icmp_echo
icmp_echo_lem src_mac dst_mac src_ip dst_ip seq s t es et =
    rw (es, icmp_echo) (rw (et, icmp_echo) refl)

module _ (h : Headers) where
  open h use {protocol, header_length, total_length, destination}

  -- A ping of the stand-in, whose sums are as `icmp_echo` computes them, is a request to the relay.
  abbrev Relayed : Bytes → Bytes → Bytes → Bytes → ℕ → ℕ → ℕ → Type 0
  Relayed src_mac dst_mac src_ip dst_ip seq s t =
      let start = 0x45 ∷ 0 ∷ (be16 84 ++ (0 ∷ 0 ∷ 0 ∷ 0 ∷ 64 ∷ 1 ∷ [])) in
      parse_echo_request h (
        dst_mac
        ++ (src_mac
            ++ (be16 0x0800
                ++ (start
                    ++ (be16 s
                        ++ (src_ip
                            ++ (dst_ip
                                ++ (8 ∷ 0 ∷ (be16 t ++ (be16 1 ++ (be16 seq ++ payload)))))))))))
      ≡ request dst_ip 1 seq payload

  relayed_lem :
      ((b : Bytes) → protocol b ≡ byte_at b 9)
      → ((b : Bytes) → header_length b ≡ byte_at b 0 % 16 * 4)
      → ((b : Bytes) → total_length b ≡ read16 (slice 2 4 b))
      → ((b : Bytes) → destination b ≡ slice 16 20 b)
      → (d0 d1 d2 d3 d4 d5 s0 s1 s2 s3 s4 s5 f0 f1 f2 f3 t0 t1 t2 t3 seq s t : ℕ) → seq < 2 ^ 16
      → Relayed
          (s0 ∷ s1 ∷ s2 ∷ s3 ∷ s4 ∷ s5 ∷ [])
          (d0 ∷ d1 ∷ d2 ∷ d3 ∷ d4 ∷ d5 ∷ [])
          (f0 ∷ f1 ∷ f2 ∷ f3 ∷ [])
          (t0 ∷ t1 ∷ t2 ∷ t3 ∷ [])
          seq
          s
          t
  unfolding parse_echo_request payload_from cut
  relayed_lem hp hl ht hd d0 d1 d2 d3 d4 d5 s0 s1 s2 s3 s4 s5 f0 f1 f2 f3 t0 t1 t2 t3 seq s t
        small =
      rw (hl, hp, ht, hd)
        (rw hl (ap (λ n. request (t0 ∷ t1 ∷ t2 ∷ t3 ∷ []) 1 n payload) (read16-be16 seq small)))

  relayed :
      (src_mac dst_mac src_ip dst_ip : Bytes) (seq s t : ℕ)
      → ((b : Bytes) → protocol b ≡ byte_at b 9)
      → ((b : Bytes) → header_length b ≡ byte_at b 0 % 16 * 4)
      → ((b : Bytes) → total_length b ≡ read16 (slice 2 4 b))
      → ((b : Bytes) → destination b ≡ slice 16 20 b)
      → length src_mac ≡ 6
      → length dst_mac ≡ 6
      → length src_ip ≡ 4
      → length dst_ip ≡ 4
      → seq < 2 ^ 16
      → Relayed src_mac dst_mac src_ip dst_ip seq s t
  relayed src_mac dst_mac src_ip dst_ip seq s t hp hl ht hd ls ld lf lt small =
      by_six (λ dst. Relayed src_mac dst src_ip dst_ip seq s t)
        (λ d0 d1 d2 d3 d4 d5.
          let d = d0 ∷ d1 ∷ d2 ∷ d3 ∷ d4 ∷ d5 ∷ [] in
          by_six (λ src. Relayed src d src_ip dst_ip seq s t)
            (λ s0 s1 s2 s3 s4 s5.
              let m = s0 ∷ s1 ∷ s2 ∷ s3 ∷ s4 ∷ s5 ∷ [] in
              by_four (λ from. Relayed m d from dst_ip seq s t)
                (λ f0 f1 f2 f3.
                  by_four (λ to. Relayed m d (f0 ∷ f1 ∷ f2 ∷ f3 ∷ []) to seq s t)
                    (λ t0 t1 t2 t3.
                      relayed_lem hp hl ht hd d0 d1 d2 d3 d4 d5 s0 s1 s2 s3 s4 s5 f0 f1 f2 f3 t0 t1
                        t2 t3 seq s t small)
                    dst_ip lt)
                src_ip lf)
            src_mac ls)
        dst_mac ld

  -- Every ping of the stand-in can be built, and the hub's relay reads from it, with a header reader
  -- that follows RFC 791, the pinged address, the identifier 1, the sequence number and the 56 bytes.
  pub icmp_echo-parse_echo_request :
      (src_mac dst_mac src_ip dst_ip : Bytes) (seq : ℕ)
      → ((b : Bytes) → protocol b ≡ byte_at b 9)
      → ((b : Bytes) → header_length b ≡ byte_at b 0 % 16 * 4)
      → ((b : Bytes) → total_length b ≡ read16 (slice 2 4 b))
      → ((b : Bytes) → destination b ≡ slice 16 20 b)
      → length src_mac ≡ 6
      → length dst_mac ≡ 6
      → length src_ip ≡ 4
      → length dst_ip ≡ 4
      → seq < 2 ^ 16
      → (frame : Bytes) × (icmp_echo src_mac dst_mac src_ip dst_ip seq ≡ some frame)
        × (parse_echo_request h frame ≡ request dst_ip 1 seq payload)
  icmp_echo-parse_echo_request src_mac dst_mac src_ip dst_ip seq hp hl ht hd ls ld lf lt small =
      let start = 0x45 ∷ 0 ∷ (be16 84 ++ (0 ∷ 0 ∷ 0 ∷ 0 ∷ 64 ∷ 1 ∷ [])) in
      let (s, es) = checksum_total (start ++ (0 ∷ 0 ∷ (src_ip ++ dst_ip))) in
      let (t, et) = checksum_total (8 ∷ 0 ∷ 0 ∷ 0 ∷ (be16 1 ++ (be16 seq ++ payload))) in
      (
        _,
        icmp_echo_lem src_mac dst_mac src_ip dst_ip seq s t es et,
        relayed src_mac dst_mac src_ip dst_ip seq s t hp hl ht hd ls ld lf lt small,
      )
