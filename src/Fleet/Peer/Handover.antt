-- ===== src/Fleet/Peer/Handover.antt =====
-- Failover keeps the leases: from a hub's pool through a heartbeat and a peer into the pool of the
-- peer once it is promoted.
use uml_kernel_build.Common.{
  ℕ, suc, ◌^◌, ◌≤◌, ◌≡◌, inl, inr, refl, sym, ap, ◌∙◌, true, false, Option, none, some, List, [],
  ◌∷◌, arith, ltb, leb, Bool-cases, Option-cases, nat_eq, bytes_eq, length, take, All,
  take_of_length-le, Bytes, IsU32, bytes_beq_iff, copy_n, copy_n_lem, Dict, lookup, insert,
  lookup-insert, All-insert, NodupKeys, NodupKeys-insert,
}
use uml_kernel_build.Elect.{Lease, encode_beacon, max_leases}
use uml_kernel_build.Elect.RoundTrip.{
  IsLease, is_beacon-encode_beacon, parse-encode_beacon, length-encode_beacon,
}
use uml_kernel_build.Dhcp.Pool.{Pool, new_pool, lease_addr, get_or_assign, restore}
use uml_kernel_build.Dhcp.Pool.Unique.{IsPool, new_pool-IsPool}
use uml_kernel_build.Dhcp.Pool.Restored.{restore_iff}
use uml_kernel_build.Dhcp.Pool.Requests.{
  serve, serve-IsPool, new_pool-size, serve-size, lease_addr-base, get_or_assign-found,
}
use uml_kernel_build.Fleet.Peer.{PeerState, insert_lease, lease_map, snoop}

-- `net`'s text forms of addresses, as far as `Pool.Leases` and `poolSnapshot` use them.
pub record AddressText : Type 1 where
  pub Text : Type 0
  pub mac_text : Bytes → Text
  pub parse_mac : Text → Option Bytes
  pub ip_text : Bytes → Text
  pub parse_ip : Text → Option Bytes
  pub parse-mac_text : (mac : Bytes) → length mac ≡ 6 → parse_mac (mac_text mac) ≡ some mac
  pub parse-ip_text : (ip : Bytes) → length ip ≡ 4 → parse_ip (ip_text ip) ≡ some ip

abbrev Sized : Bytes × Bytes → Type 0
Sized e = (length e.0 ≡ 6) × (length e.1 ≡ 4)

abbrev as_leases : Dict Bytes Bytes → List Lease
as_leases [] = []
as_leases ((mac, ip) ∷ m) = record { mac = mac; ip = ip } ∷ as_leases m

get_or_assign-Sized :
    (mac : Bytes) (p : Pool) → All Sized p.assigned → All Sized (get_or_assign mac p).1.assigned
unfolding get_or_assign lease_addr
get_or_assign-Sized mac p h = elim (Option-cases (lookup (copy_n 6 mac) p.assigned)) [
  | inr (ip, e) ↦ rw (e, get_or_assign) h
  | inl e ↦ elim (Bool-cases (leb p.size p.next)) [
    | inl full ↦ rw (e, full, get_or_assign) h
    | inr room ↦
        rw (e, room, get_or_assign) (All-insert Sized (copy_n 6 mac) _ p.assigned (refl, refl) h)
  ]
]

serve-Sized :
    (macs : List Bytes) (p : Pool) → All Sized p.assigned → All Sized (serve macs p).assigned
unfolding serve
serve-Sized [] p h = h
serve-Sized (mac ∷ macs) p h =
    serve-Sized macs (get_or_assign mac p).1 (get_or_assign-Sized mac p h)

get_or_assign-NodupKeys :
    (mac : Bytes) (p : Pool) → NodupKeys p.assigned → NodupKeys (get_or_assign mac p).1.assigned
unfolding get_or_assign
get_or_assign-NodupKeys mac p h = elim (Option-cases (lookup (copy_n 6 mac) p.assigned)) [
  | inr (ip, e) ↦ rw (e, get_or_assign) h
  | inl e ↦ elim (Bool-cases (leb p.size p.next)) [
    | inl full ↦ rw (e, full, get_or_assign) h
    | inr room ↦ rw (e, room, get_or_assign) (NodupKeys-insert (copy_n 6 mac) _ p.assigned h)
  ]
]

serve-NodupKeys :
    (macs : List Bytes) (p : Pool) → NodupKeys p.assigned → NodupKeys (serve macs p).assigned
unfolding serve
serve-NodupKeys [] p h = h
serve-NodupKeys (mac ∷ macs) p h =
    serve-NodupKeys macs (get_or_assign mac p).1 (get_or_assign-NodupKeys mac p h)

insert_lease-NodupKeys :
    (m : Dict Bytes Bytes) (ls : List Lease) → NodupKeys m → NodupKeys (insert_lease m ls)
unfolding insert_lease
insert_lease-NodupKeys m [] h = h
insert_lease-NodupKeys m (l ∷ ls) h =
    insert_lease-NodupKeys (insert l.mac l.ip m) ls (NodupKeys-insert l.mac l.ip m h)

-- A table without repeated MACs, written into a map, overrides what the map held.
insert_lease-lookup :
    (k : Bytes) (m acc : Dict Bytes Bytes)
    → NodupKeys m
    → lookup k (insert_lease acc (as_leases m))
      ≡ (elim (lookup k m) [ some ip ↦ some ip | none ↦ lookup k acc ])
unfolding insert_lease lookup
insert_lease-lookup k [] acc n = refl
insert_lease-lookup k ((j, w) ∷ m) acc n = ground (
  arith,
  bytes_beq_iff j k,
  lookup-insert j k w acc,
  insert_lease-lookup k m (insert j w acc) n.1,
)

lease_map-lookup :
    (k : Bytes) (m : Dict Bytes Bytes)
    → NodupKeys m
    → lookup k (lease_map (as_leases m)) ≡ lookup k m
unfolding lease_map lookup
lease_map-lookup k m n = insert_lease-lookup k m [] n ∙ ground arith

lease_map-NodupKeys : (ls : List Lease) → NodupKeys (lease_map ls)
unfolding lease_map
lease_map-NodupKeys ls = insert_lease-NodupKeys [] ls tt

as_leases-IsLease : (m : Dict Bytes Bytes) → All Sized m → All IsLease (as_leases m)
as_leases-IsLease [] h = tt
as_leases-IsLease ((mac, ip) ∷ m) h =
    (record { mac_size = h.0.0; ip_size = h.0.1 }, as_leases-IsLease m h.1)

length-as_leases : (m : Dict Bytes Bytes) → length (as_leases m) ≡ length m
length-as_leases [] = refl
length-as_leases ((mac, ip) ∷ m) = ap suc (length-as_leases m)

-- A heartbeat of the hub is kept from the guest, marks the hub as alive and leaves its table.
pub snoop-encode_beacon :
    (now seq : ℕ) (src : Bytes) (ls : List Lease) (st : PeerState)
    → IsU32 seq
    → All IsLease ls
    → snoop now (encode_beacon src seq ls) st ≡ (
      none,
      record { saw_beacon = true; last_beacon = now; leases = lease_map (take max_leases ls) },
    )
unfolding snoop
snoop-encode_beacon now seq src ls st hs hl =
    let long : ltb (length (encode_beacon src seq ls)) 14 ≡ false =
      ground (arith, length-encode_beacon src seq ls) in
    rw (long, snoop)
      (rw (is_beacon-encode_beacon src seq ls) (rw (parse-encode_beacon src seq ls hs hl) refl))

-- A new pool of the same range that is restored from another one's table.
promoted :
    (p : Pool) (start : Option Bytes) (size : ℕ) (mac ip : Bytes)
    → IsPool p
    → NodupKeys p.assigned
    → (p.size ≡ size) × (p.base ≡ (new_pool start size).base)
    → lookup (copy_n 6 mac) p.assigned ≡ some ip
    → (get_or_assign mac (restore (lease_map (as_leases p.assigned)) (new_pool start size))).0
      ≡ some ip
promoted p start size mac ip v keys same held =
    let table = lease_map (as_leases p.assigned) in
    let p0 = new_pool start size in
    let at : (k : Bytes) → lookup k table ≡ lookup k p.assigned =
      λ k. lease_map-lookup k p.assigned keys in
    let one : (k k' a : Bytes) → lookup k table ≡ some a → lookup k' table ≡ some a → k ≡ k' =
      λ k k' a h h'. v.unique k k' a (sym (at k) ∙ h) (sym (at k') ∙ h') in
    let (off, below, is) = v.held (copy_n 6 mac) ip held in
    let within = v.within in
    let kept : lookup (copy_n 6 mac) (restore table p0).assigned ≡ some ip =
      (restore_iff table (lease_map-NodupKeys (as_leases p.assigned)) one start size (copy_n 6 mac)
          ip).1
        (at (copy_n 6 mac) ∙ held, off, omega arith, is ∙ lease_addr-base p p0 off same.1) in
    ap (λ r. r.0) (get_or_assign-found mac (restore table p0) ip kept)

module _ (text : AddressText) where
  open text use {Text, mac_text, parse_mac, ip_text, parse_ip, parse-mac_text, parse-ip_text}

  -- `Pool.Leases`: distinct MACs have distinct texts, so no key is written twice. The order is the list's,
  -- where Go ranges over its map in any order; it matters only beyond the 32 leases of a heartbeat.
  unfoldable pub leases : Dict Bytes Bytes → List (Text × Text)
  leases [] = []
  leases ((mac, ip) ∷ m) = (mac_text mac, ip_text ip) ∷ leases m

  -- `poolSnapshot`, over the map in some order.
  unfoldable pub snapshot : List (Text × Text) → List Lease
  snapshot [] = []
  snapshot ((mac, ip) ∷ snap) = elim (parse_mac mac) [
    | none ↦ snapshot snap
    | some hw ↦ elim (parse_ip ip) [
      | none ↦ snapshot snap
      | some ip4 ↦ record { mac = copy_n 6 hw; ip = copy_n 4 ip4 } ∷ snapshot snap
    ]
  ]

  unfoldable pub pool_snapshot : Pool → List Lease
  unfolding leases snapshot
  pool_snapshot p = snapshot (leases p.assigned)

  snapshot-leases : (m : Dict Bytes Bytes) → All Sized m → snapshot (leases m) ≡ as_leases m
  unfolding snapshot leases
  snapshot-leases [] h = refl
  snapshot-leases ((mac, ip) ∷ m) h =
      rw (parse-mac_text mac h.0.0, snapshot)
        (rw (parse-ip_text ip h.0.1, snapshot)
          (λ i.
            record { mac = copy_n_lem 6 mac h.0.0 i; ip = copy_n_lem 4 ip h.0.1 i }
            ∷ snapshot-leases m h.1 i))

  -- A hub serves at most 32 clients, floods a heartbeat and dies; a peer that has heard it is promoted
  -- with the same configuration. Every client that asks again gets the address that it had.
  pub handover :
      (start : Option Bytes) (size : ℕ) (macs : List Bytes) (src : Bytes) (now seq : ℕ)
      (st : PeerState) (mac ip : Bytes)
      → size ≤ 2 ^ 32
      → IsU32 seq
      → length (serve macs (new_pool start size)).assigned ≤ max_leases
      → lookup (copy_n 6 mac) (serve macs (new_pool start size)).assigned ≡ some ip
      → (get_or_assign mac (
          restore
            (snoop now
              (encode_beacon src seq (pool_snapshot (serve macs (new_pool start size))))
              st).1.leases
            (new_pool start size))).0
        ≡ some ip
  unfolding pool_snapshot
  handover start size macs src now seq st mac ip small hs few held =
      let p0 = new_pool start size in
      let p = serve macs p0 in
      let m = p.assigned in
      let sized : All Sized m = serve-Sized macs p0 (unfold new_pool in tt) in
      let keys : NodupKeys m = serve-NodupKeys macs p0 (unfold new_pool in tt) in
      let v : IsPool p =
        serve-IsPool macs p0 (omega (arith, new_pool-size start size))
          (new_pool-IsPool start size) in
      let table : pool_snapshot p ≡ as_leases m = snapshot-leases m sized in
      let heard = snoop-encode_beacon now seq src (as_leases m) st hs (as_leases-IsLease m sized) in
      let whole : take max_leases (as_leases m) ≡ as_leases m =
        take_of_length-le max_leases (as_leases m) (omega (arith, length-as_leases m)) in
      let table_kept : (snoop now (encode_beacon src seq (pool_snapshot p)) st).1.leases
          ≡ lease_map (as_leases m) =
        rw table (ap (λ r. r.1.leases) heard ∙ ap lease_map whole) in
      let (sizes, bases) = serve-size macs p0 in
      rw table_kept
        (promoted p start size mac ip v keys (sizes ∙ new_pool-size start size, bases) held)
