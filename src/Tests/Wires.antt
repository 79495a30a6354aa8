-- ===== src/Tests/Wires.antt =====
-- Wires and checksums at concrete inputs.
use uml_kernel_build.Common.{
  ℕ, suc, ◌^◌, ◌<◌, ◌≡◌, refl, some, [], ◌∷◌, ◌++◌, arith, nat_eq, bytes_eq, length, Bytes, be16,
}
use uml_kernel_build.Transport.{
  RecvError, eof, got, failed, read_full, send_frame, recv_body, recv_frame, recv_all, send_all,
  frame_max,
}
use uml_kernel_build.Transport.Framing
use uml_kernel_build.Icmp.Checksum
use uml_kernel_build.Icmp.Checksum.{sum_from, fold_from, icmp_checksum}

two_frames : send_all ((1 ∷ 2 ∷ []) ∷ (3 ∷ []) ∷ []) ≡ some (0 ∷ 2 ∷ 1 ∷ 2 ∷ 0 ∷ 1 ∷ 3 ∷ [])
unfolding send_all send_frame
two_frames = refl

cut_short : recv_frame 100 (0 ∷ 3 ∷ 1 ∷ 2 ∷ []) ≡ failed RecvError.unexpected_eof
unfolding recv_frame read_full recv_body
cut_short = refl

received : recv_frame 100 (0 ∷ 2 ∷ 1 ∷ 2 ∷ 9 ∷ []) ≡ got (1 ∷ 2 ∷ []) (9 ∷ [])
unfolding recv_frame read_full recv_body
received = refl

recv_all-send_all_example :
    (w : Bytes) × (send_all ((1 ∷ 2 ∷ []) ∷ (3 ∷ []) ∷ []) ≡ some w)
    × (recv_all (suc (length {A = Bytes} ((1 ∷ 2 ∷ []) ∷ (3 ∷ []) ∷ []))) frame_max w
        ≡ some ((1 ∷ 2 ∷ []) ∷ (3 ∷ []) ∷ [], eof))
recv_all-send_all_example = Framing.recv_all-send_all ((1 ∷ 2 ∷ []) ∷ (3 ∷ []) ∷ []) (omega arith)

-- An echo request with id 1 and sequence number 2.
echo_sum : icmp_checksum (8 ∷ 0 ∷ 0 ∷ 0 ∷ 0 ∷ 1 ∷ 0 ∷ 2 ∷ 0xab ∷ []) ≡ some 0x4cfc
unfolding icmp_checksum fold_from sum_from
echo_sum = refl

icmp_checksum_valid_example :
    (sum : ℕ) × (icmp_checksum (8 ∷ 0 ∷ 0 ∷ 0 ∷ 0 ∷ 1 ∷ 0 ∷ 2 ∷ 0xab ∷ []) ≡ some sum)
    × (sum < 2 ^ 16)
    × (icmp_checksum (8 ∷ 0 ∷ (be16 sum ++ (0 ∷ 1 ∷ 0 ∷ 2 ∷ 0xab ∷ []))) ≡ some 0)
icmp_checksum_valid_example =
    Checksum.icmp_checksum_valid 8 0 (0 ∷ 1 ∷ 0 ∷ 2 ∷ 0xab ∷ []) (omega arith) (omega arith)
