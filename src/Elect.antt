-- ===== src/Elect.antt =====
-- vdeplug-go/internal/elect/elect.go: the heartbeat frame that the hub floods, which carries the
-- DHCP lease table. (The seat's file lock is in Fleet.)
pub mod RoundTrip
use uml_kernel_build.Common.{
  ℕ, zero, suc, ◌+◌, ◌*◌, ◌%◌, ◌^◌, Bool, false, ◌&&◌, List, [], ◌∷◌, ◌++◌, length, take, drop, ltb,
  ◌==◌, if◌then◌else◌, bit_and, Bytes, bytes_beq, byte_at, slice, copy_n, be16, be32, read16,
  read32,
}

abbrev pub beacon_ethertype : ℕ
beacon_ethertype = 0x88b5

-- "VDHB"
abbrev pub beacon_magic : Bytes
beacon_magic = 0x56 ∷ 0x44 ∷ 0x48 ∷ 0x42 ∷ []

abbrev pub max_leases : ℕ
max_leases = 32

pub record Lease : Type 0 where
  pub mac : Bytes
  pub ip : Bytes

pub data BeaconError : Type 0 where
  not_a_beacon version_unsupported truncated : BeaconError

pub data Parsed : Type 0 where
  beacon : ℕ → List Lease → Parsed
  err : BeaconError → Parsed

-- The body of `EncodeBeacon`'s loop: the ten bytes of one lease.
unfoldable pub encode_lease : Lease → Bytes
encode_lease l = copy_n 6 l.mac ++ copy_n 4 l.ip

unfoldable pub encode_leases : List Lease → Bytes
encode_leases [] = []
encode_leases (l ∷ ls) = encode_lease l ++ encode_leases ls

unfoldable pub cap_leases : List Lease → List Lease
cap_leases ls = if ltb max_leases (length ls) then take max_leases ls else ls

unfoldable pub encode_beacon : Bytes → ℕ → List Lease → Bytes
unfolding cap_leases
encode_beacon src_mac seq leases =
    let ls = cap_leases leases in
    copy_n 6 (0xff ∷ 0xff ∷ 0xff ∷ 0xff ∷ 0xff ∷ 0xff ∷ [])
    ++ (copy_n 6 src_mac
        ++ (be16 beacon_ethertype
            ++ (beacon_magic
                ++ (1 ∷ (be32 (seq % 2 ^ 32) ++ (be16 (length ls % 2 ^ 16) ++ encode_leases ls))))))

unfoldable pub is_beacon : Bytes → Bool
is_beacon frame =
    if ltb (length frame) 25
    then false
    else if bit_and (byte_at frame 0) 1 == 0
    then false
    else (read16 (slice 12 14 frame) == beacon_ethertype)
      && bytes_beq (slice 14 18 frame) beacon_magic

-- One entry of the table: `e` is the frame from the entry on.
unfoldable pub parse_lease : Bytes → Lease
parse_lease e = record { mac = copy_n 6 (slice 0 6 e); ip = copy_n 4 (slice 6 10 e) }

unfoldable pub parse_leases : ℕ → Bytes → List Lease
parse_leases zero e = []
parse_leases (suc n) e = parse_lease e ∷ parse_leases n (drop 10 e)

unfoldable pub parse_beacon : Bytes → Parsed
unfolding is_beacon
parse_beacon frame =
    let n = read16 (slice 23 25 frame) in
    if is_beacon frame
    then if byte_at frame 18 == 1
      then if ltb max_leases n
        then err truncated
        else if ltb (length frame) (25 + 10 * n)
        then err truncated
        else beacon (read32 (slice 19 23 frame)) (parse_leases n (drop 25 frame))
      else err version_unsupported
    else err not_a_beacon
