-- ===== src/Hub/Leases.antt =====
-- What the hub leases, from the subnet and the start that are configured.
use uml_kernel_build.Common.{
  ℕ, ◌+◌, ◌≤◌, ◌<◌, ◌≡◌, inl, inr, ◌∙◌, Option, some, List, [], arith, Option-cases, nat_eq,
  bytes_eq, length, Bytes, be32, read32, lookup,
}
use uml_kernel_build.Dhcp.Pool.{Pool, new_pool}
use uml_kernel_build.Dhcp.Pool.Requests.{serve, serve_unique}
use uml_kernel_build.Dhcp.Subnet.{broadcast_of, usable_leases, usable_leases_inside}
use uml_kernel_build.Hub.{lease_pool}

lease_pool_new :
    (subnet : Option (Option Bytes × Bytes)) (start4 : Option Bytes) (p : Pool)
    → lease_pool subnet (some start4) [] ≡ some (some p)
    → (size : ℕ) × (usable_leases subnet start4 256 ≡ some size)
      × (0 < size)
      × (p ≡ new_pool start4 size)
unfolding lease_pool
lease_pool_new subnet start4 p h = elim (Option-cases (usable_leases subnet start4 256)) [
  | inl bad ↦ absurd (ground arith)
  | inr (size, e) ↦ (size, e, ground arith, ground arith)
]

-- A hub that inherits no leases serves its clients, whoever asks, addresses of its own subnet: each lies
-- from the network's address on and below the broadcast address, there are at most 256, and two clients
-- with one address are one client.
pub lease_pool_inside :
    (ip4 mask start4 : Bytes) (p : Pool) (macs : List Bytes) (mac mac' ip : Bytes)
    → length start4 ≡ 4
    → lease_pool (some (some ip4, mask)) (some (some start4)) [] ≡ some (some p)
    → lookup mac (serve macs p).assigned ≡ some ip
    → lookup mac' (serve macs p).assigned ≡ some ip
    → (mac ≡ mac')
      × (off : ℕ) × (off < 256)
      × (ip ≡ be32 (read32 start4 + off))
      × (read32 ip4 ≤ read32 start4 + off)
      × (read32 start4 + off < broadcast_of (read32 ip4) (read32 mask))
lease_pool_inside ip4 mask start4 p macs mac mac' ip four built has has' =
    let (size, sized, some_, same) = lease_pool_new (some (some ip4, mask)) (some start4) p built in
    let (small, first, low, high) =
      usable_leases_inside ip4 mask start4 256 size 0 four sized some_ in
    let (one, off, below, at) =
      serve_unique (some start4) size macs mac mac' ip (omega arith) (rw same at has)
        (rw same at has') in
    let (bounded, here, above, under) =
      usable_leases_inside ip4 mask start4 256 size off four sized below in
    (one, off, omega arith, at ∙ here, above, under)
