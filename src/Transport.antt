-- ===== src/Transport.antt =====
-- The TCP wire of vdeplug-go/internal/transport/transport.go: a frame is sent behind its length in
-- two bytes. A stream is the bytes that the other side wrote before it closed.
pub mod Framing
pub mod Addresses
use uml_kernel_build.Common.{
  ◌||◌, ℕ, zero, suc, ◌+◌, ◌%◌, ◌^◌, Option, none, some, List, [], ◌∷◌, ◌++◌, ltb, leb, ◌==◌,
  if◌then◌else◌, nat_eq, bytes_eq, length, take, drop, Bytes, be16, read16,
}

abbrev pub frame_max : ℕ
frame_max = 9216 + 14 + 4

pub data RecvError : Type 0 where
  eof unexpected_eof too_big : RecvError

pub data Read : Type 0 where
  got : Bytes → Bytes → Read
  failed : RecvError → Read

-- `io.ReadFull` of `n` bytes, with what is left of the stream.
unfoldable pub read_full : ℕ → Bytes → Read
read_full n stream =
    if leb n (length stream)
    then got (take n stream) (drop n stream)
    else if length stream == 0
    then failed eof
    else failed unexpected_eof

-- What `SendFrame` writes; `none` is its error.
unfoldable pub send_frame : Bytes → Option Bytes
send_frame b = if ltb frame_max (length b) then none else some (be16 (length b % 2 ^ 16) ++ b)

-- `RecvFrame` with a buffer of `buf` bytes.
unfoldable pub recv_body : ℕ → Bytes → Bytes → Read
recv_body buf head stream =
    let n = read16 head in
    if n == 0
    then failed eof
    else if ltb frame_max n || ltb buf n
    then failed too_big
    else read_full n stream

unfoldable pub recv_frame : ℕ → Bytes → Read
recv_frame buf stream = elim (read_full 2 stream) [
  | failed e ↦ failed e
  | got head rest ↦ recv_body buf head rest
]

-- Consecutive calls of `RecvFrame` until the first error, one for each unit of fuel.
-- `none` is fuel that ran out.
unfoldable pub recv_all : ℕ → ℕ → Bytes → Option (List Bytes × RecvError)
recv_all zero buf stream = none
recv_all (suc fuel) buf stream = elim (recv_frame buf stream) [
  | failed e ↦ some ([], e)
  | got frame rest ↦ elim (recv_all fuel buf rest) [
    | none ↦ none
    | some (frames, e) ↦ some (frame ∷ frames, e)
  ]
]

-- The stream that consecutive calls of `SendFrame` write; `none` if one of them fails.
unfoldable pub send_all : List Bytes → Option Bytes
send_all [] = some []
send_all (b ∷ bs) = elim (send_frame b) [
  | none ↦ none
  | some w ↦ elim (send_all bs) [ none ↦ none | some ws ↦ some (w ++ ws) ]
]
