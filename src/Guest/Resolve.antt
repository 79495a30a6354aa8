-- ===== src/Guest/Resolve.antt =====
-- How the stand-in finds another one's address.
use uml_kernel_build.Common.{
  ℕ, ◌≤◌, ◌<◌, ◌≡◌, ◌≢◌, refl, ◌∙◌, true, false, Option, none, some, List, [], ◌∷◌, ◌++◌, arith,
  ltb, nat_eq, bytes_eq, length, replicate, All, by_four, by_six, Bytes, bytes_beq, bytes_beq_self,
  bytes_beq_iff, slice, copy_n, read16,
}
use uml_kernel_build.Guest.{broadcast, arp_frame, asks_arp, serve}
use uml_kernel_build.Guest.Pinger.{resolved_by, heard, resolve_from}

serve_arp :
    (mac ip frame : Bytes)
    → 14 ≤ length frame
    → read16 (slice 12 14 frame) ≡ 0x0806
    → asks_arp ip frame ≡ true
    → serve mac ip frame
      ≡ some (arp_frame 2 mac ip (copy_n 6 (slice 22 28 frame)) (copy_n 4 (slice 28 32 frame)) ∷ [])
unfolding serve
serve_arp mac ip frame long kind asks =
    let whole : ltb (length frame) 14 ≡ false = ground arith in
    rw (whole, serve) (rw kind (rw asks refl))

-- The target answers the request, and the asker takes the target's address from the answer.
abbrev Resolves : Bytes → Bytes → Bytes → Bytes → Type 0
Resolves asker from mac ip =
    (serve mac ip (arp_frame 1 asker from broadcast ip) ≡ some (arp_frame 2 mac ip asker from ∷ []))
    × (resolved_by ip (arp_frame 2 mac ip asker from) ≡ some mac)

resolves_lem :
    (a0 a1 a2 a3 a4 a5 f0 f1 f2 f3 m0 m1 m2 m3 m4 m5 i0 i1 i2 i3 : ℕ)
    → Resolves
        (a0 ∷ a1 ∷ a2 ∷ a3 ∷ a4 ∷ a5 ∷ [])
        (f0 ∷ f1 ∷ f2 ∷ f3 ∷ [])
        (m0 ∷ m1 ∷ m2 ∷ m3 ∷ m4 ∷ m5 ∷ [])
        (i0 ∷ i1 ∷ i2 ∷ i3 ∷ [])
unfolding arp_frame asks_arp resolved_by
resolves_lem a0 a1 a2 a3 a4 a5 f0 f1 f2 f3 m0 m1 m2 m3 m4 m5 i0 i1 i2 i3 =
    let us = bytes_beq_self (i0 ∷ i1 ∷ i2 ∷ i3 ∷ []) in
    (serve_arp _ _ _ (omega arith) refl (rw (us, asks_arp) refl), rw (us, resolved_by) refl)

resolves :
    (asker from mac ip : Bytes)
    → length asker ≡ 6
    → length from ≡ 4
    → length mac ≡ 6
    → length ip ≡ 4
    → Resolves asker from mac ip
resolves asker from mac ip la lf lm li =
    by_six (λ asker. Resolves asker from mac ip)
      (λ a0 a1 a2 a3 a4 a5.
        let a = a0 ∷ a1 ∷ a2 ∷ a3 ∷ a4 ∷ a5 ∷ [] in
        by_four (λ from. Resolves a from mac ip)
          (λ f0 f1 f2 f3.
            let f = f0 ∷ f1 ∷ f2 ∷ f3 ∷ [] in
            by_six (λ mac. Resolves a f mac ip)
              (λ m0 m1 m2 m3 m4 m5.
                by_four (λ ip. Resolves a f (m0 ∷ m1 ∷ m2 ∷ m3 ∷ m4 ∷ m5 ∷ []) ip)
                  (λ i0 i1 i2 i3.
                    resolves_lem a0 a1 a2 a3 a4 a5 f0 f1 f2 f3 m0 m1 m2 m3 m4 m5 i0 i1 i2 i3)
                  ip li)
              mac lm)
          from lf)
      asker la

-- Frames and timeouts before the deadline that do not resolve the target.
abbrev pub Noise : ℕ → Bytes → List (ℕ × Option Bytes) → Type 0
Noise deadline target events =
    All
      (λ (x : ℕ × Option Bytes).
        (x.0 < deadline) × ((f : Bytes) → x.1 ≡ some f → resolved_by target f ≡ none))
      events

heard_noise :
    (target mac : Bytes) (event : Option Bytes)
    → ((f : Bytes) → event ≡ some f → resolved_by target f ≡ none)
    → heard target mac event ≡ mac
unfolding heard
heard_noise target mac none h = refl
heard_noise target mac (some f) h = rw (h f refl, heard) refl

resolve_from-Noise :
    (deadline : ℕ) (target : Bytes) (noise events : List (ℕ × Option Bytes))
    → Noise deadline target noise
    → resolve_from deadline target (replicate 6 0) (noise ++ events)
      ≡ resolve_from deadline target (replicate 6 0) events
unfolding resolve_from
resolve_from-Noise deadline target [] events h = refl
resolve_from-Noise deadline target ((now, event) ∷ noise) events (here, more) =
    let early : ltb now deadline ≡ true = ground (arith, here.0) in
    rw (early, resolve_from)
      (rw (heard_noise target (replicate 6 0) event here.1)
        (resolve_from-Noise deadline target noise events more))

resolve_from_stops :
    (deadline now : ℕ) (target mac reply : Bytes) (later : List (ℕ × Option Bytes))
    → now < deadline
    → mac ≢ replicate 6 0
    → resolved_by target reply ≡ some mac
    → resolve_from deadline target (replicate 6 0) ((now, some reply) ∷ later) ≡ mac
unfolding resolve_from heard
resolve_from_stops deadline now target mac reply later soon real found =
    let early : ltb now deadline ≡ true = ground arith in
    let named : bytes_beq mac (replicate 6 0) ≡ false =
      ground (arith, bytes_beq_iff mac (replicate 6 0)) in
    rw (early, resolve_from) (rw (found, heard) (rw named refl))

-- The stand-in resolves another one: the other's NIC answers its request, and as soon as this answer
-- arrives, before the deadline and whatever other frames and timeouts came first, the search ends with
-- the other's address.
pub resolve_from_answer :
    (deadline now : ℕ) (asker from mac ip : Bytes) (noise later : List (ℕ × Option Bytes))
    → length asker ≡ 6
    → length from ≡ 4
    → length mac ≡ 6
    → length ip ≡ 4
    → mac ≢ replicate 6 0
    → Noise deadline ip noise
    → now < deadline
    → (reply : Bytes) × (serve mac ip (arp_frame 1 asker from broadcast ip) ≡ some (reply ∷ []))
      × (resolve_from deadline ip (replicate 6 0) (noise ++ ((now, some reply) ∷ later)) ≡ mac)
resolve_from_answer deadline now asker from mac ip noise later la lf lm li real quiet soon =
    let (out, found) = resolves asker from mac ip la lf lm li in
    let reply = arp_frame 2 mac ip asker from in
    (
      reply,
      out,
      resolve_from-Noise deadline ip noise ((now, some reply) ∷ later) quiet
          ∙ resolve_from_stops deadline now ip mac reply later soon real found,
    )
