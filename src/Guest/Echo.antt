-- ===== src/Guest/Echo.antt =====
-- What the stand-in's NIC answers.
use uml_kernel_build.Common.{
  ℕ, ◌%◌, ◌≤◌, ◌≡◌, refl, ◌∙◌, true, false, some, [], ◌∷◌, ◌++◌, arith, ltb, nat_eq, bytes_eq,
  length, All, length-append, by_four, by_six, by_ten, Bytes, IsByte, bytes_beq_self, byte_at,
  slice, be16, read16,
}
use uml_kernel_build.Icmp.Checksum.{sum_from, fold_from}
use uml_kernel_build.Icmp.Checksum as Sums
use uml_kernel_build.Icmp.Checksum.Fields.{icmp_checksum-field}
use uml_kernel_build.Guest.{checksum, icmp_checksum, header_length, asks_echo, echo_reply, serve}
use uml_kernel_build.Guest.Pinger.{is_pong}

-- An ICMP message of the given type behind an Ethernet and an IP header: the IP header's first ten
-- bytes are `head`, then comes its checksum.
abbrev pub ping_frame : Bytes → Bytes → Bytes → ℕ → Bytes → Bytes → ℕ → ℕ → ℕ → Bytes → Bytes
ping_frame dst src head head_sum from to kind code sum rest =
    dst
    ++ (src
        ++ (be16 0x0800
            ++ (head ++ (be16 head_sum ++ (from ++ (to ++ (kind ∷ code ∷ (be16 sum ++ rest))))))))

serve_echo :
    (mac ip frame reply : Bytes)
    → 14 ≤ length frame
    → read16 (slice 12 14 frame) ≡ 0x0800
    → asks_echo frame ≡ true
    → header_length frame ≡ 20
    → echo_reply 20 frame ≡ some reply
    → serve mac ip frame ≡ some (reply ∷ [])
unfolding serve
serve_echo mac ip frame reply long kind asks ihl e =
    let whole : ltb (length frame) 14 ≡ false = ground arith in
    let here : echo_reply (header_length frame) frame ≡ some reply = rw ihl e in
    rw (whole, serve) (rw kind (rw asks (rw here refl)))

-- The header and the message of a reply, each with its checksum in place.
module _ (rest : Bytes) (head_sum code sum s t : ℕ) where
  abbrev Rewritten : Bytes → Bytes → Bytes → Bytes → Bytes → Type 0
  Rewritten dst src head from to =
      checksum (head ++ (0 ∷ 0 ∷ (to ++ from))) ≡ some s
      → checksum (0 ∷ code ∷ 0 ∷ 0 ∷ rest) ≡ some t
      → echo_reply 20 (ping_frame dst src head head_sum from to 8 code sum rest)
        ≡ some (ping_frame src dst head s to from 0 code t rest)

  rewritten :
      (d0 d1 d2 d3 d4 d5 s0 s1 s2 s3 s4 s5 h0 h1 h2 h3 h4 h5 h6 h7 h8 h9 f0 f1 f2 f3 t0 t1 t2
        t3 : ℕ)
      → Rewritten
          (d0 ∷ d1 ∷ d2 ∷ d3 ∷ d4 ∷ d5 ∷ [])
          (s0 ∷ s1 ∷ s2 ∷ s3 ∷ s4 ∷ s5 ∷ [])
          (h0 ∷ h1 ∷ h2 ∷ h3 ∷ h4 ∷ h5 ∷ h6 ∷ h7 ∷ h8 ∷ h9 ∷ [])
          (f0 ∷ f1 ∷ f2 ∷ f3 ∷ [])
          (t0 ∷ t1 ∷ t2 ∷ t3 ∷ [])
  unfolding echo_reply icmp_checksum
  rewritten d0 d1 d2 d3 d4 d5 s0 s1 s2 s3 s4 s5 h0 h1 h2 h3 h4 h5 h6 h7 h8 h9 f0 f1 f2 f3 t0 t1 t2
        t3 es et =
      rw (es, echo_reply) (rw (et, echo_reply, icmp_checksum) refl)

  abbrev Answers : Bytes → Bytes → Bytes → Bytes → Bytes → Bytes → Bytes → Type 0
  Answers mac ip dst src head from to =
      byte_at head 0 % 16 ≡ 5
      → byte_at head 9 ≡ 1
      → 4 ≤ length rest
      → checksum (head ++ (0 ∷ 0 ∷ (to ++ from))) ≡ some s
      → checksum (0 ∷ code ∷ 0 ∷ 0 ∷ rest) ≡ some t
      → (serve mac ip (ping_frame dst src head head_sum from to 8 code sum rest)
          ≡ some (ping_frame src dst head s to from 0 code t rest ∷ []))
        × (is_pong to (ping_frame src dst head s to from 0 code t rest) ≡ some true)

  answered_lem :
      (mac ip : Bytes)
      (d0 d1 d2 d3 d4 d5 s0 s1 s2 s3 s4 s5 h0 h1 h2 h3 h4 h5 h6 h7 h8 h9 f0 f1 f2 f3 t0 t1 t2
        t3 : ℕ)
      → Answers mac ip
          (d0 ∷ d1 ∷ d2 ∷ d3 ∷ d4 ∷ d5 ∷ [])
          (s0 ∷ s1 ∷ s2 ∷ s3 ∷ s4 ∷ s5 ∷ [])
          (h0 ∷ h1 ∷ h2 ∷ h3 ∷ h4 ∷ h5 ∷ h6 ∷ h7 ∷ h8 ∷ h9 ∷ [])
          (f0 ∷ f1 ∷ f2 ∷ f3 ∷ [])
          (t0 ∷ t1 ∷ t2 ∷ t3 ∷ [])
  unfolding asks_echo is_pong
  answered_lem mac ip d0 d1 d2 d3 d4 d5 s0 s1 s2 s3 s4 s5 h0 h1 h2 h3 h4 h5 h6 h7 h8 h9 f0 f1 f2 f3
        t0 t1 t2 t3 ihl icmp long es et =
      let e =
        rewritten d0 d1 d2 d3 d4 d5 s0 s1 s2 s3 s4 s5 h0 h1 h2 h3 h4 h5 h6 h7 h8 h9 f0 f1 f2 f3 t0
          t1 t2 t3 es et in
      let us = bytes_beq_self (t0 ∷ t1 ∷ t2 ∷ t3 ∷ []) in
      (
        serve_echo mac ip _ _ (omega arith) refl (rw ihl (ground arith)) (rw ihl refl) e,
        rw ihl (rw (us, is_pong) (ground arith)),
      )

  answered :
      (mac ip dst src head from to : Bytes)
      → length dst ≡ 6
      → length src ≡ 6
      → length head ≡ 10
      → length from ≡ 4
      → length to ≡ 4
      → Answers mac ip dst src head from to
  answered mac ip dst src head from to ld ls lh lf lt =
      by_six (λ dst. Answers mac ip dst src head from to)
        (λ d0 d1 d2 d3 d4 d5.
          let d = d0 ∷ d1 ∷ d2 ∷ d3 ∷ d4 ∷ d5 ∷ [] in
          by_six (λ src. Answers mac ip d src head from to)
            (λ s0 s1 s2 s3 s4 s5.
              let s = s0 ∷ s1 ∷ s2 ∷ s3 ∷ s4 ∷ s5 ∷ [] in
              by_ten (λ head. Answers mac ip d s head from to)
                (λ h0 h1 h2 h3 r lr.
                  by_six (λ r. Answers mac ip d s (h0 ∷ h1 ∷ h2 ∷ h3 ∷ r) from to)
                    (λ h4 h5 h6 h7 h8 h9.
                      let h = h0 ∷ h1 ∷ h2 ∷ h3 ∷ h4 ∷ h5 ∷ h6 ∷ h7 ∷ h8 ∷ h9 ∷ [] in
                      by_four (λ from. Answers mac ip d s h from to)
                        (λ f0 f1 f2 f3.
                          by_four (λ to. Answers mac ip d s h (f0 ∷ f1 ∷ f2 ∷ f3 ∷ []) to)
                            (λ t0 t1 t2 t3.
                              answered_lem mac ip d0 d1 d2 d3 d4 d5 s0 s1 s2 s3 s4 s5 h0 h1 h2 h3 h4
                                h5 h6 h7 h8 h9 f0 f1 f2 f3 t0 t1 t2 t3)
                            to lt)
                        from lf)
                    r lr)
                head lh)
            src ls)
        dst ld

checksum_lem : (b : Bytes) → checksum b ≡ Sums.icmp_checksum b
unfolding checksum Sums.icmp_checksum
checksum_lem b = refl

-- An echo request in IPv4 without options, whatever its checksums, is answered by one frame: the
-- Ethernet and IP addresses change places, the rest of both headers, the identifier, the sequence number
-- and the payload are the request's, and the checksums of the new header and the new message are valid.
-- The asker takes it for the answer of the one that it asked.
pub serve_ping :
    (mac ip dst src head from to rest : Bytes) (head_sum code sum : ℕ)
    → length dst ≡ 6
    → length src ≡ 6
    → length head ≡ 10
    → length from ≡ 4
    → length to ≡ 4
    → byte_at head 0 % 16 ≡ 5
    → byte_at head 9 ≡ 1
    → 4 ≤ length rest
    → length rest ≤ 65531
    → All IsByte head
    → All IsByte (to ++ from)
    → All IsByte (code ∷ rest)
    → (s : ℕ) × (t : ℕ) × (serve mac ip (ping_frame dst src head head_sum from to 8 code sum rest)
        ≡ some (ping_frame src dst head s to from 0 code t rest ∷ []))
      × (checksum (head ++ (be16 s ++ (to ++ from))) ≡ some 0)
      × (checksum (0 ∷ code ∷ (be16 t ++ rest)) ≡ some 0)
      × (is_pong to (ping_frame src dst head s to from 0 code t rest) ≡ some true)
serve_ping mac ip dst src head from to rest head_sum code sum ld ls lh lf lt ihl icmp long short hb
      ab rb =
    let (s, es, low, valid) =
      icmp_checksum-field head (to ++ from) hb ab (rw lh refl)
        (ground (arith, length-append to from)) in
    let (t, et, low', valid') = Sums.icmp_checksum_valid 0 code rest (omega arith, rb) short in
    let head_e = checksum_lem (head ++ (0 ∷ 0 ∷ (to ++ from))) ∙ es in
    let body_e = checksum_lem (0 ∷ code ∷ 0 ∷ 0 ∷ rest) ∙ et in
    let (out, pong) =
      answered rest head_sum code sum s t mac ip dst src head from to ld ls lh lf lt ihl icmp long
        head_e body_e in
    (
      s,
      t,
      out,
      checksum_lem (head ++ (be16 s ++ (to ++ from))) ∙ valid,
      checksum_lem (0 ∷ code ∷ (be16 t ++ rest)) ∙ valid',
      pong,
    )
