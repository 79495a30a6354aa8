-- ===== src/Elect/RoundTrip.antt =====
-- What a peer reads back from a heartbeat, and what it refuses.
use uml_kernel_build.Common.{
  ap, suc, zero, ◌+◌, drop, slice, read16, Bool-cases, inl, inr, ℕ, zero, suc, ◌+◌, ◌*◌, ◌≤◌, ◌≡◌,
  refl, true, List, [], ◌∷◌, ◌++◌, length, take, drop, All, All-take, take_of_length-le,
  length-take, arith, Bytes, copy_n_lem, IsU32,
}
use uml_kernel_build.Elect.{
  Lease, beacon, encode_lease, encode_leases, cap_leases, encode_beacon, is_beacon, parse_lease,
  parse_leases, parse_beacon, max_leases,
}

-- A lease as the source types it: [6]byte and [4]byte.
pub record IsLease (l : Lease) : Type 0 where
  pub mac_size : length l.mac ≡ 6
  pub ip_size : length l.ip ≡ 4

parse-encode_lease :
    (l : Lease) (rest : Bytes) → IsLease l → parse_lease (encode_lease l ++ rest) ≡ l
unfolding encode_lease parse_lease
parse-encode_lease l rest h =
    λ i. record { mac = copy_n_lem 6 l.mac h.mac_size i; ip = copy_n_lem 4 l.ip h.ip_size i }

parse-encode_leases :
    (ls : List Lease) → All IsLease ls → parse_leases (length ls) (encode_leases ls) ≡ ls
unfolding encode_leases parse_leases encode_lease
parse-encode_leases [] h = refl
parse-encode_leases (l ∷ ls) h =
    λ i. parse-encode_lease l (encode_leases ls) h.0 i ∷ parse-encode_leases ls h.1 i

pub length-encode_leases : (ls : List Lease) → length (encode_leases ls) ≡ 10 * length ls
unfolding encode_leases encode_lease
length-encode_leases [] = omega arith
length-encode_leases (l ∷ ls) = omega (arith, length-encode_leases ls)

cap_leases-take : (ls : List Lease) → cap_leases ls ≡ take max_leases ls
unfolding cap_leases
cap_leases-take ls = ground (arith, take_of_length-le max_leases ls)

cap_leases-le : (ls : List Lease) → length (cap_leases ls) ≤ 32
cap_leases-le ls = rw cap_leases-take (omega (arith, length-take max_leases ls))

-- Every heartbeat that the hub builds passes the peers' test.
pub is_beacon-encode_beacon :
    (src : Bytes) (seq : ℕ) (ls : List Lease) → is_beacon (encode_beacon src seq ls) ≡ true
unfolding encode_beacon is_beacon
is_beacon-encode_beacon src seq ls = ground arith

-- A heartbeat with a 32-bit sequence number and leases of 6 and 4 bytes parses to that number and
-- the first 32 leases.
pub parse-encode_beacon :
    (src : Bytes) (seq : ℕ) (ls : List Lease)
    → IsU32 seq
    → All IsLease ls
    → parse_beacon (encode_beacon src seq ls) ≡ beacon seq (take max_leases ls)
unfolding encode_beacon parse_beacon
parse-encode_beacon src seq ls hs hl =
    let table = cap_leases ls in
    let fits : All IsLease table = rw (cap_leases-take ls) (All-take IsLease max_leases ls hl) in
    ground (
      arith,
      cap_leases-le ls,
      cap_leases-take ls,
      length-encode_leases table,
      parse-encode_leases table fits,
    )

parse_leases_sizes : (n : ℕ) (e : Bytes) → All IsLease (parse_leases n e)
unfolding parse_leases parse_lease
parse_leases_sizes zero e = tt
parse_leases_sizes (suc n) e =
    (record { mac_size = refl; ip_size = refl }, parse_leases_sizes n (drop 10 e))

length-parse_leases : (n : ℕ) (e : Bytes) → length (parse_leases n e) ≡ n
unfolding parse_leases
length-parse_leases zero e = refl
length-parse_leases (suc n) e = ap suc (length-parse_leases n (drop 10 e))

parse_beacon_shape :
    (frame : Bytes) (seq : ℕ) (ls : List Lease)
    → parse_beacon frame ≡ beacon seq ls
    → (is_beacon frame ≡ true)
      × (read16 (slice 23 25 frame) ≤ 32)
      × (25 + 10 * read16 (slice 23 25 frame) ≤ length frame)
      × (ls ≡ parse_leases (read16 (slice 23 25 frame)) (drop 25 frame))
unfolding parse_beacon
parse_beacon_shape frame seq ls h = elim (Bool-cases (is_beacon frame)) [
  | inl y ↦ ground arith
  | inr n ↦ ground arith
]

-- What a peer accepts was marked as a heartbeat, and its table of at most 32 leases lies in the
-- frame whole.
pub parse_beacon_sound :
    (frame : Bytes) (seq : ℕ) (ls : List Lease)
    → parse_beacon frame ≡ beacon seq ls
    → (is_beacon frame ≡ true)
      × (length ls ≤ 32)
      × (25 + 10 * length ls ≤ length frame)
      × All IsLease ls
parse_beacon_sound frame seq ls h =
    let n = read16 (slice 23 25 frame) in
    let rest = drop 25 frame in
    let (marked, few, whole, e) = parse_beacon_shape frame seq ls h in
    let size : length ls ≡ n = rw e (length-parse_leases n rest) in
    (marked, omega arith, omega arith, rw e (parse_leases_sizes n rest))

pub length-encode_beacon :
    (src : Bytes) (seq : ℕ) (ls : List Lease) → 25 ≤ length (encode_beacon src seq ls)
unfolding encode_beacon
length-encode_beacon src seq ls = omega arith
