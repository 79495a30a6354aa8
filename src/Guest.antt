-- ===== src/Guest.antt =====
-- vdeplug-go/helpers/fakeguest/main.go: the stand-in for a guest, its frames and its NIC, which
-- answers ARP and pings.
pub mod Child
pub mod Echo
pub mod Resolve
pub mod Pinger
pub mod Pings
use uml_kernel_build.Common.{
  ℕ, zero, suc, ◌+◌, ◌-◌, ◌*◌, ◌%◌, ◌^◌, Bool, ◌&&◌, Option, none, some, List, [], ◌∷◌, ◌++◌, ltb,
  leb, ◌==◌, if◌then◌else◌, nat_eq, bytes_eq, length, take, drop, Bytes, bytes_beq, byte_at, slice,
  copy_n, be16, read16,
}
use uml_kernel_build.Icmp.Checksum.{sum_from, fold_from}

-- `copy(b[i:], src)` where `src` fits.
abbrev pub put : ℕ → Bytes → Bytes → Bytes
put i src b = take i b ++ (src ++ drop (i + length src) b)

abbrev pub broadcast : Bytes
broadcast = 255 ∷ 255 ∷ 255 ∷ 255 ∷ 255 ∷ 255 ∷ []

-- `checksum` and `ipChecksum` are the same code.
unfoldable pub checksum : Bytes → Option ℕ
checksum b = elim (fold_from 3 (sum_from 0 b)) [
  | none ↦ none
  | some sum ↦ some (65535 - sum % 2 ^ 16)
]

-- `icmpChecksum` clears the field in the slice that it is given: the second result.
unfoldable pub icmp_checksum : Bytes → Option (ℕ × Bytes)
unfolding checksum
icmp_checksum b =
    let cleared = put 2 (0 ∷ 0 ∷ []) b in
    elim (checksum cleared) [ none ↦ none | some sum ↦ some (sum, cleared) ]

unfoldable pub arp_frame : ℕ → Bytes → Bytes → Bytes → Bytes → Bytes
arp_frame op sha spa tha tpa =
    tha
    ++ (sha
        ++ (be16 0x0806
            ++ (be16 1 ++ (be16 0x0800 ++ (6 ∷ 4 ∷ (be16 op ++ (sha ++ (spa ++ (tha ++ tpa)))))))))

-- The loop over the payload from byte `i` of the message on.
unfoldable pub payload_from : ℕ → ℕ → Bytes
payload_from zero i = []
payload_from (suc n) i = (97 + i % 23) % 256 ∷ payload_from n (i + 1)

abbrev pub payload : Bytes
payload = payload_from 56 8

unfoldable pub icmp_echo : Bytes → Bytes → Bytes → Bytes → ℕ → Option Bytes
unfolding checksum
icmp_echo src_mac dst_mac src_ip dst_ip seq =
    let start = 0x45 ∷ 0 ∷ (be16 (20 + 8 + 56) ++ (0 ∷ 0 ∷ 0 ∷ 0 ∷ 64 ∷ 1 ∷ [])) in
    let body = be16 1 ++ (be16 seq ++ payload) in
    elim (checksum (start ++ (0 ∷ 0 ∷ (src_ip ++ dst_ip)))) [
      | none ↦ none
      | some head_sum ↦ elim (checksum (8 ∷ 0 ∷ 0 ∷ 0 ∷ body)) [
        | none ↦ none
        | some sum ↦ some (
            dst_mac
            ++ (src_mac
                ++ (be16 0x0800
                    ++ (start
                        ++ (be16 head_sum
                            ++ (src_ip ++ (dst_ip ++ (8 ∷ 0 ∷ (be16 sum ++ body)))))))))
      ]
    ]

-- The case of an echo request, whose IP header is `ihl` bytes long; the message is the reply's tail.
unfoldable pub echo_reply : ℕ → Bytes → Option Bytes
unfolding checksum icmp_checksum
echo_reply ihl frame =
    let macs =
      put 12 (slice 12 14 frame) (put 6 (slice 0 6 frame) (put 0 (slice 6 12 frame) frame)) in
    let ips = put 30 (slice 26 30 frame) (put 26 (slice 30 34 frame) macs) in
    let cleared = put 24 (0 ∷ 0 ∷ []) (put (14 + ihl) (0 ∷ []) ips) in
    elim (checksum (slice 14 (14 + ihl) cleared)) [
      | none ↦ none
      | some head_sum ↦
          let headed = put 24 (be16 head_sum) cleared in
          elim (icmp_checksum (put 0 (0 ∷ []) (drop (14 + ihl) headed))) [
            | none ↦ none
            | some (sum, message) ↦ some (take (14 + ihl) headed ++ put 2 (be16 sum) message)
          ]
    ]

-- The length of the IP header behind an Ethernet header.
abbrev pub header_length : Bytes → ℕ
header_length frame = byte_at frame 14 % 16 * 4

unfoldable pub asks_arp : Bytes → Bytes → Bool
asks_arp ip frame =
    leb 42 (length frame) && (read16 (slice 20 22 frame) == 1) && bytes_beq (slice 38 42 frame) ip

unfoldable pub asks_echo : Bytes → Bool
asks_echo frame =
    leb 38 (length frame)
    && (byte_at frame 23 == 1)
    && leb (14 + header_length frame + 8) (length frame)
    && (byte_at frame (14 + header_length frame) == 8)

-- The frames that one round of `serveNIC` writes; `none` is a checksum without end.
unfoldable pub serve : Bytes → Bytes → Bytes → Option (List Bytes)
unfolding arp_frame echo_reply asks_arp asks_echo
serve mac ip frame =
    let kind = read16 (slice 12 14 frame) in
    if ltb (length frame) 14
    then some []
    else if kind == 0x0806
    then (if asks_arp ip frame
        then some
            (arp_frame 2 mac ip (copy_n 6 (slice 22 28 frame)) (copy_n 4 (slice 28 32 frame)) ∷ [])
        else some [])
    else if (kind == 0x0800) && asks_echo frame
    then (elim (echo_reply (header_length frame) frame) [
      | none ↦ none
      | some reply ↦ some (reply ∷ [])
    ])
    else some []
