-- ===== src/Tests/Pools.antt =====
-- The lease pool and the heartbeat at concrete inputs.
use uml_kernel_build.Common.{
  ℕ, ◌<◌, ◌≡◌, ◌↔◌, refl, false, Option, none, some, [], ◌∷◌, arith, nat_eq, bytes_eq, All, Bytes,
  bytes_beq_iff, Dict, lookup, insert,
}
use uml_kernel_build.Elect.{Lease, encode_beacon, encode_leases, encode_lease, cap_leases}
use uml_kernel_build.Elect.RoundTrip.{IsLease}
use uml_kernel_build.Dhcp.Pool.{
  new_pool, lease_addr, get_or_assign, holder, restore_at, restore_from, restore, first,
}
use uml_kernel_build.Dhcp.Pool.Requests
use uml_kernel_build.Dhcp.Pool.Requests.{serve, serve-IsPool}
use uml_kernel_build.Dhcp.Pool.Restored
use uml_kernel_build.Fleet.Peer.{PeerState, snoop}
use uml_kernel_build.Fleet.Peer.Handover
use uml_kernel_build.Fleet.Peer.Handover.{AddressText, pool_snapshot}

abbrev mac_a : Bytes
mac_a = 2 ∷ 0 ∷ 0 ∷ 0 ∷ 0 ∷ 1 ∷ []

abbrev mac_b : Bytes
mac_b = 2 ∷ 0 ∷ 0 ∷ 0 ∷ 0 ∷ 2 ∷ []

abbrev mac_c : Bytes
mac_c = 2 ∷ 0 ∷ 0 ∷ 0 ∷ 0 ∷ 3 ∷ []

abbrev addr : ℕ → Bytes
addr n = 10 ∷ 0 ∷ 2 ∷ n ∷ []

abbrev start : Option Bytes
start = some (addr 15)

pools : Unit {0}
unfolding serve get_or_assign lease_addr new_pool lookup insert holder restore_at restore_from
    restore first
pools = tt

served :
    lookup mac_b (serve (mac_a ∷ mac_b ∷ mac_a ∷ []) (new_pool start 4)).assigned ≡ some (addr 16)
unfolding pools
served = refl

exhausted : (get_or_assign mac_b (serve (mac_a ∷ []) (new_pool start 1))).0 ≡ none
unfolding pools
exhausted = refl

-- The addresses run on over the end of an octet.
carry : lease_addr (new_pool (some (10 ∷ 0 ∷ 2 ∷ 255 ∷ [])) 4) 1 ≡ 10 ∷ 0 ∷ 3 ∷ 0 ∷ []
unfolding pools
carry = refl

serve_unique_example :
    (mac_b ≡ mac_b) × (off : ℕ) × (off < 4) × (addr 16 ≡ lease_addr (new_pool start 4) off)
serve_unique_example =
    Requests.serve_unique start 4 (mac_a ∷ mac_b ∷ mac_a ∷ []) mac_b mac_b (addr 16) (omega arith)
      served served

-- The gossip of a hub whose second client is missing from the table.
abbrev gossip : Dict Bytes Bytes
gossip = (mac_a, addr 15) ∷ (mac_b, addr 17) ∷ []

gossip_one :
    (mac mac' ip : Bytes) → lookup mac gossip ≡ some ip → lookup mac' gossip ≡ some ip → mac ≡ mac'
unfolding lookup
gossip_one mac mac' ip h h' = ground (
  arith,
  bytes_beq_iff mac_a mac,
  bytes_beq_iff mac_b mac,
  bytes_beq_iff mac_a mac',
  bytes_beq_iff mac_b mac',
)

restore_iff_example :
    (lookup mac_b (restore gossip (new_pool start 4)).assigned ≡ some (addr 17)) ↔ (
      (lookup mac_b gossip ≡ some (addr 17))
      × (o : ℕ) × (o < 4)
      × (addr 17 ≡ lease_addr (new_pool start 4) o))
unfolding lookup
restore_iff_example =
    Restored.restore_iff gossip (refl, (refl, tt)) gossip_one start 4 mac_b (addr 17)

-- Texts that are the addresses themselves.
abbrev plain : AddressText
plain = record {
  Text = Bytes;
  mac_text = λ mac. mac;
  parse_mac = λ t. some t;
  ip_text = λ ip. ip;
  parse_ip = λ t. some t;
  parse-mac_text = λ mac h. refl;
  parse-ip_text = λ ip h. refl;
}

abbrev listening_peer : PeerState
listening_peer = record { saw_beacon = false; last_beacon = 0; leases = [] }

handover_example :
    (get_or_assign mac_b (
      restore
        (snoop 5
          (encode_beacon mac_c 7
            (pool_snapshot plain (serve (mac_a ∷ mac_b ∷ []) (new_pool start 4))))
          listening_peer).1.leases
        (new_pool start 4))).0
    ≡ some (addr 16)
unfolding pools
handover_example =
    Handover.handover plain start 4 (mac_a ∷ mac_b ∷ []) mac_c 5 7 listening_peer mac_b (addr 16)
      (omega arith) (omega arith) (omega arith) refl

abbrev lease_a : Lease
lease_a = record { mac = mac_a; ip = addr 15 }

sized : All IsLease (lease_a ∷ [])
sized = (record { mac_size = refl; ip_size = refl }, tt)

-- A heartbeat on the wire.
beacon_bytes :
    encode_beacon mac_c 258 (lease_a ∷ [])
    ≡ 0xff ∷ 0xff ∷ 0xff ∷ 0xff ∷ 0xff ∷ 0xff ∷ 2 ∷ 0 ∷ 0 ∷ 0 ∷ 0 ∷ 3 ∷ 0x88 ∷ 0xb5 ∷ 0x56 ∷ 0x44
      ∷ 0x48 ∷ 0x42 ∷ 1 ∷ 0 ∷ 0 ∷ 1 ∷ 2 ∷ 0 ∷ 1 ∷ 2 ∷ 0 ∷ 0 ∷ 0 ∷ 0 ∷ 1 ∷ 10 ∷ 0 ∷ 2 ∷ 15 ∷ []
unfolding encode_beacon cap_leases encode_leases encode_lease
beacon_bytes = refl
