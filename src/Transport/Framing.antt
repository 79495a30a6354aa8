-- ===== src/Transport/Framing.antt =====
-- Frames arrive whole and in order.
use uml_kernel_build.Common.{
  ℕ, suc, ◌+◌, ◌%◌, ◌^◌, ◌≤◌, ◌<◌, ◌≡◌, refl, ◌∙◌, true, false, some, List, [], ◌∷◌, ◌++◌, arith,
  ltb, leb, nat_eq, bytes_eq, length, take, drop, All, length-append, length-take, length-drop,
  take-append_length, drop-append_length, Bytes, be16, read16,
}
use mathlib.Core.List.{append_assoc}
use uml_kernel_build.Transport.{
  frame_max, eof, got, failed, read_full, send_frame, recv_body, recv_frame, recv_all, send_all,
}

read_full-append : (a b : Bytes) → read_full (length a) (a ++ b) ≡ got a b
unfolding read_full
read_full-append a b =
    let fits : leb (length a) (length (a ++ b)) ≡ true = ground (arith, length-append a b) in
    rw (fits, take-append_length, drop-append_length) refl

send_frame_lem :
    (b w : Bytes)
    → send_frame b ≡ some w
    → (length b ≤ frame_max) × (w ≡ be16 (length b % 2 ^ 16) ++ b)
unfolding send_frame
send_frame_lem b w h = ground arith

recv_frame_lem :
    (buf : ℕ) (head stream : Bytes)
    → length head ≡ 2
    → recv_frame buf (head ++ stream) ≡ recv_body buf head stream
unfolding recv_frame
recv_frame_lem buf head stream h =
    let e : read_full 2 (head ++ stream) ≡ got head stream =
      rw (← h) (read_full-append head stream) in
    rw (e, recv_frame) refl

recv_body_lem :
    (buf n : ℕ) (b rest : Bytes)
    → n ≡ length b
    → 0 < n
    → (n ≤ frame_max) × (n ≤ buf)
    → recv_body buf (be16 n) (b ++ rest) ≡ got b rest
unfolding recv_body
recv_body_lem buf n b rest e pos fits = ground (arith, read_full-append b rest)

-- A frame of 1 to 9234 bytes is read back whole, and what follows it in the stream is left.
pub recv-send_frame :
    (buf : ℕ) (b w rest : Bytes)
    → 0 < length b
    → length b ≤ buf
    → send_frame b ≡ some w
    → recv_frame buf (w ++ rest) ≡ got b rest
recv-send_frame buf b w rest pos small h =
    let (short, e) = send_frame_lem b w h in
    let n = length b % 2 ^ 16 in
    rw (e, append_assoc)
      (recv_frame_lem buf (be16 n) (b ++ rest) refl
        ∙ recv_body_lem buf n b rest (omega arith) (omega arith) (omega arith))

-- An empty frame is written as two zero bytes, which end the receiver's wire.
pub recv_frame_empty : (buf : ℕ) (rest : Bytes) → recv_frame buf (0 ∷ 0 ∷ rest) ≡ failed eof
unfolding recv_frame read_full recv_body
recv_frame_empty buf rest = ground arith

-- Whatever is received fits the buffer and the frame limit, is not empty, and is what stood in the
-- stream behind its length.
pub recv_frame_sound :
    (buf : ℕ) (stream b rest : Bytes)
    → recv_frame buf stream ≡ got b rest
    → (0 < length b)
      × (length b ≤ buf)
      × (length b ≤ frame_max)
      × (length stream ≡ length b + length rest + 2)
unfolding recv_frame recv_body read_full
recv_frame_sound buf stream b rest h = ground (
  arith,
  length-take (read16 (take 2 stream)) (drop 2 stream),
  length-drop (read16 (take 2 stream)) (drop 2 stream),
  length-drop 2 stream,
)

abbrev pub Sendable : Bytes → Type 0
Sendable b = (0 < length b) × (length b ≤ frame_max)

send_frame-total : (b : Bytes) → Sendable b → send_frame b ≡ some (be16 (length b % 2 ^ 16) ++ b)
unfolding send_frame
send_frame-total b h =
    let fits : ltb frame_max (length b) ≡ false = ground arith in rw (fits, send_frame) refl

-- Frames of 1 to 9234 bytes that are sent one after the other are all written, and consecutive calls
-- of `RecvFrame` get the same frames in the same order, then the end of the stream.
pub recv_all-send_all :
    (frames : List Bytes)
    → All Sendable frames
    → (w : Bytes) × (send_all frames ≡ some w)
      × (recv_all (suc (length frames)) frame_max w ≡ some (frames, eof))
unfolding send_all recv_all
recv_all-send_all [] h = ([], refl, unfold recv_frame read_full in refl)
recv_all-send_all (b ∷ bs) h =
    let (ws, sent, received) = recv_all-send_all bs h.1 in
    let w = be16 (length b % 2 ^ 16) ++ b in
    let first = send_frame-total b h.0 in
    let got_first = recv-send_frame frame_max b w ws h.0.0 h.0.1 first in
    (w ++ ws, rw (first, send_all) (rw sent refl), rw (got_first, recv_all) (rw received refl))
