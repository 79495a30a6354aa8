-- ===== src/Tunnel/Handshake.antt =====
-- The wait for the first handshake, `watchHandshake` of vdeplug-go/internal/wgup/tunnel.go.
use uml_kernel_build.Common.{
  ℕ, ◌+◌, ◌*◌, Bool, true, false, not, ◌&&◌, Option, none, some, List, [], ◌∷◌, ltb, ◌==◌,
  if◌then◌else◌, nat_eq, bytes_eq, codes,
}
use uml_kernel_build.Common.{ℤ, pos, negsuc}
use uml_kernel_build.Config.Strings.{Text, split, cut_prefix}

-- 15 seconds, in nanoseconds.
abbrev pub up_timeout : ℕ
up_timeout = 15 * 1_000_000_000

-- What the watch logs.
pub data Report : Type 0 where
  completed no_handshake : Report

-- The fields of the device's answer; `parse_int` is `strconv.ParseInt`'s value.
unfoldable pub handshake_fields : (Text → ℤ) → List Text → ℤ × ℤ → ℤ × ℤ
handshake_fields parse_int [] (secs, nsecs) = (secs, nsecs)
handshake_fields parse_int (line ∷ lines) (secs, nsecs) =
    let found_s = handshake_fields parse_int lines in
    elim (cut_prefix (codes "last_handshake_time_sec=") line) [
      | some rest ↦ found_s (parse_int rest, nsecs)
      | none ↦ elim (cut_prefix (codes "last_handshake_time_nsec=") line) [
        | some rest ↦ found_s (secs, parse_int rest)
        | none ↦ found_s (secs, nsecs)
      ]
    ]

-- The argument is the device's answer, none at an error.
unfoldable pub handshake_time : (Text → ℤ) → Option Text → Option (ℤ × ℤ)
unfolding handshake_fields
handshake_time parse_int none = none
handshake_time parse_int (some out) =
    let (secs, nsecs) = handshake_fields parse_int (split 10 out) (pos 0, pos 0) in
    elim secs [
      | pos k ↦ if k == 0 then none else some (pos k, nsecs)
      | negsuc k ↦ some (negsuc k, nsecs)
    ]

-- The ticks of `watchHandshake`: the time after each tick and the device's answer. `is_zero` is
-- that of the time; `done` is never closed from outside.
unfoldable pub watch_from :
    (Text → ℤ) → (ℤ × ℤ → Bool) → ℕ → Bool → List (ℕ × Option Text) → List Report
unfolding handshake_time
watch_from parse_int is_zero deadline warned [] = []
watch_from parse_int is_zero deadline warned ((now, out) ∷ ticks) =
    let on = watch_from parse_int is_zero deadline warned ticks in
    let quiet = watch_from parse_int is_zero deadline true ticks in
    let waits = if not warned && ltb deadline now then no_handshake ∷ quiet else on in
    elim (handshake_time parse_int out) [
      | none ↦ waits
      | some hs ↦ if is_zero hs then waits else completed ∷ []
    ]

unfoldable pub watch_handshake :
    (Text → ℤ) → (ℤ × ℤ → Bool) → ℕ → List (ℕ × Option Text) → List Report
unfolding watch_from
watch_handshake parse_int is_zero begun ticks =
    watch_from parse_int is_zero (begun + up_timeout) false ticks
