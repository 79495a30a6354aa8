-- ===== src/Guest/Pinger.antt =====
-- `runPing` of the stand-in: it resolves the target and counts the answers to its pings.
use uml_kernel_build.Common.{
  ℕ, zero, suc, ◌+◌, ◌-◌, ◌*◌, ◌/◌, ◌%◌, Bool, false, not, ◌&&◌, Option, none, some, List, [], ◌∷◌,
  ltb, leb, ◌==◌, if◌then◌else◌, nat_eq, bytes_eq, length, replicate, Bytes, bytes_beq, byte_at,
  slice, copy_n, read16,
}

-- The address that `runPing` takes from a frame while it resolves the target.
unfoldable pub resolved_by : Bytes → Bytes → Option Bytes
resolved_by target f =
    if leb 42 (length f)
      && (read16 (slice 12 14 f) == 0x0806)
      && (read16 (slice 20 22 f) == 2)
      && bytes_beq (slice 28 32 f) target
    then some (copy_n 6 (slice 6 12 f))
    else none

-- The address known after one `select`, which gives a frame, or none after 300 ms.
unfoldable pub heard : Bytes → Bytes → Option Bytes → Bytes
heard target mac none = mac
heard target mac (some f) = elim (resolved_by target f) [ none ↦ mac | some m ↦ m ]

-- The loop of `runPing` that resolves the target, from the address known so far. An event comes with the
-- time before its `select`.
unfoldable pub resolve_from : ℕ → Bytes → Bytes → List (ℕ × Option Bytes) → Bytes
unfolding heard
resolve_from deadline target mac [] = mac
resolve_from deadline target mac ((now, event) ∷ events) =
    let known = heard target mac event in
    let more = resolve_from deadline target known events in
    if not (ltb now deadline) then mac else if bytes_beq known (replicate 6 0) then more else known

-- Is it taken for the answer to a ping? `none` is an index out of range.
unfoldable pub is_pong : Bytes → Bytes → Option Bool
is_pong target f =
    let at = 14 + byte_at f 14 % 16 * 4 in
    if leb 38 (length f) && (read16 (slice 12 14 f) == 0x0800) && bytes_beq (slice 26 30 f) target
    then (if ltb at (length f) then some (byte_at f at == 0) else none)
    else some false

-- How the wait for an answer ends, with the events after it.
pub data Wait : Type 0 where
  panics waiting : Wait
  answered timed_out : (rest : List (Option Bytes)) → Wait

-- The wait of one ping: an event is what the `select` gives, a frame, or none after 2 s.
unfoldable pub await_pong : Bytes → List (Option Bytes) → Wait
unfolding is_pong
await_pong target [] = waiting
await_pong target (none ∷ events) = timed_out events
await_pong target (some f ∷ events) =
    let more = await_pong target events in
    elim (is_pong target f) [ none ↦ panics | some it ↦ if it then answered events else more ]

-- `n` pings, `lost` of those before unanswered: the number that were lost, with the events left; none
-- is a panic or a wait that the events do not end.
unfoldable pub ping_loop : ℕ → Bytes → List (Option Bytes) → ℕ → Option (ℕ × List (Option Bytes))
unfolding await_pong
ping_loop zero target events lost = some (lost, events)
ping_loop (suc n) target events lost = elim (await_pong target events) [
  | panics ↦ none
  | waiting ↦ none
  | answered rest ↦ ping_loop n target rest lost
  | timed_out rest ↦ ping_loop n target rest (lost + 1)
]

-- The figures of the last line: received, and the loss in per cent.
unfoldable pub ping_statistics : ℕ → ℕ → ℕ × ℕ
ping_statistics n lost = (n - lost, lost * 100 / (if ltb 1 n then n else 1))
