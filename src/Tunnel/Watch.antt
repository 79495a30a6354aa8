-- ===== src/Tunnel/Watch.antt =====
-- What the watch for the handshake reports.
use uml_kernel_build.Common.{
  ℕ, ◌+◌, ◌≡◌, Bool, true, false, not, ◌&&◌, ◌||◌, Option, none, some, List, [], ◌∷◌, ◌++◌, arith,
  ltb, if◌then◌else◌, nat_eq, bytes_eq,
}
use uml_kernel_build.Common.{ℤ}
use uml_kernel_build.Config.Strings.{Text}
use uml_kernel_build.Tunnel.Handshake.{
  completed, no_handshake, handshake_time, watch_from, watch_handshake,
}

module _ (parse_int : Text → ℤ) (is_zero : ℤ × ℤ → Bool) where
  -- Does the device's answer show a handshake?
  unfoldable pub shows : Option Text → Bool
  shows out = elim (handshake_time parse_int out) [ none ↦ false | some hs ↦ not (is_zero hs) ]

  unfoldable pub some_shows : List (ℕ × Option Text) → Bool
  some_shows [] = false
  some_shows ((now, out) ∷ ticks) = shows out || some_shows ticks

  -- Does a tick before the first handshake come after the deadline?
  unfoldable pub late_before : ℕ → List (ℕ × Option Text) → Bool
  late_before deadline [] = false
  late_before deadline ((now, out) ∷ ticks) =
      not (shows out) && (ltb deadline now || late_before deadline ticks)

  watch_from_lem :
      (deadline : ℕ) (warned : Bool) (ticks : List (ℕ × Option Text))
      → watch_from parse_int is_zero deadline warned ticks
        ≡ (if not warned && late_before deadline ticks then no_handshake ∷ [] else [])
          ++ (if some_shows ticks then completed ∷ [] else [])
  unfolding watch_from shows some_shows late_before
  watch_from_lem deadline warned [] = ground arith
  watch_from_lem deadline warned ((now, out) ∷ ticks) =
      ground (arith, watch_from_lem deadline warned ticks, watch_from_lem deadline true ticks)

  -- The watch reports a missing handshake once, if a tick more than 15 seconds after its start came before
  -- any handshake, and the handshake once, when a tick shows it, and nothing after that.
  pub watch_handshake-reports :
      (begun : ℕ) (ticks : List (ℕ × Option Text))
      → watch_handshake parse_int is_zero begun ticks
        ≡ (if late_before (begun + 15_000_000_000) ticks then no_handshake ∷ [] else [])
          ++ (if some_shows ticks then completed ∷ [] else [])
  unfolding watch_handshake
  watch_handshake-reports begun ticks = watch_from_lem (begun + 15_000_000_000) false ticks
