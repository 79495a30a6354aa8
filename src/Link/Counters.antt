-- ===== src/Link/Counters.antt =====
-- What the endpoint counts, and whom it answers.
use uml_kernel_build.Common.{
  ℕ, ◌+◌, ◌%◌, ◌^◌, ◌≡◌, inl, inr, Bool, List, [], ◌∷◌, ◌++◌, arith, ltb, Bool-cases, Option-cases,
  nat_eq, bytes_eq, length, length-append, Bytes, slice, read16,
}
use uml_kernel_build.Link.{Stats, Endpoint, add64, protocol_of, inject, inject_all}

pub total_length : List (ℕ × Bytes) → ℕ
total_length [] = 0
total_length ((proto, frame) ∷ frames) = length frame + total_length frames

total_length-append :
    (a b : List (ℕ × Bytes)) → total_length (a ++ b) ≡ total_length a + total_length b
unfolding total_length
total_length-append [] b = omega arith
total_length-append ((proto, frame) ∷ a) b = omega (arith, total_length-append a b)

-- The counters after frames of which `got` were delivered: all modulo 2 ^ 64.
abbrev pub Counted : Stats → Stats → ℕ → List (ℕ × Bytes) → Type 0
Counted s t n got =
    (t.rx_packets % 2 ^ 64 ≡ (s.rx_packets + length got) % 2 ^ 64)
    × (t.rx_bytes % 2 ^ 64 ≡ (s.rx_bytes + total_length got) % 2 ^ 64)
    × ((t.rx_packets + t.dropped) % 2 ^ 64 ≡ (s.rx_packets + s.dropped + n) % 2 ^ 64)

module _ (consume : Bytes → Bool) where
  inject-Counted :
      (frame : Bytes) (e : Endpoint)
      → Counted e.stats (inject consume frame e).1.stats 1 (inject consume frame e).0
  unfolding inject add64 total_length
  inject-Counted frame e = elim (Bool-cases (ltb (length frame) 14)) [
    | inl short ↦ rw (short, inject) (omega arith, omega arith, omega arith)
    | inr long ↦ elim (Option-cases (protocol_of (read16 (slice 12 14 frame)))) [
      | inl other ↦ rw (long, inject) (rw (other, inject) (omega arith, omega arith, omega arith))
      | inr (proto, known) ↦ elim (Bool-cases (consume frame)) [
        | inl y ↦
            rw (long, inject) (rw (known, inject) (rw y (omega arith, omega arith, omega arith)))
        | inr n ↦
            rw (long, inject) (rw (known, inject) (rw n (omega arith, omega arith, omega arith)))
      ]
    ]
  ]

  Counted-append :
      (s t u : Stats) (n m : ℕ) (got more : List (ℕ × Bytes))
      → Counted s t n got
      → Counted t u m more
      → Counted s u (n + m) (got ++ more)
  Counted-append s t u n m got more (p1, b1, d1) (p2, b2, d2) = (
    omega (arith, length-append got more),
    omega (arith, total_length-append got more),
    omega arith,
  )

  -- Every frame is counted once, as received or as dropped, and the received bytes are those of the
  -- frames that the netstack was given, all modulo 2 ^ 64.
  pub inject_all-Counted :
      (frames : List Bytes) (e : Endpoint)
      → Counted e.stats
          (inject_all consume frames e).1.stats
          (length frames)
          (inject_all consume frames e).0
  unfolding inject_all total_length
  inject_all-Counted [] e = (omega arith, omega arith, omega arith)
  inject_all-Counted (frame ∷ frames) e =
      let e1 = (inject consume frame e).1 in
      let whole =
        Counted-append e.stats e1.stats (inject_all consume frames e1).1.stats 1 (length frames)
          (inject consume frame e).0 (inject_all consume frames e1).0 (inject-Counted frame e)
          (inject_all-Counted frames e1) in
      (whole.0, whole.1, omega (arith, whole.2))
