-- ===== src/Dhcp/Subnet.antt =====
-- `UsableLeases` of vdeplug-go/internal/dhcp/dhcp.go.
use uml_kernel_build.Common.{
  ◌||◌, ℕ, ◌+◌, ◌-◌, ◌%◌, ◌^◌, ◌≤◌, ◌<◌, ◌≡◌, ap, ◌∙◌, Option, none, some, arith, ltb, leb,
  if◌then◌else◌, nat_eq, bytes_eq, length, Bytes, copy_n_lem, be32, read32,
}
use uml_kernel_build.Common.{bit_or}
use uml_kernel_build.Dhcp.Pool.{new_pool, lease_addr}

-- `netAddr | ^mask`, a uint32.
unfoldable pub broadcast_of : ℕ → ℕ → ℕ
broadcast_of net_addr mask = bit_or net_addr (2 ^ 32 - 1 - mask) % 2 ^ 32

-- `start` is `start.To4()`. `subnet` is the result of `net.ParseCIDR`: the network's `To4()` and its
-- mask. The result `none` is the panic of `Uint32` on a nil address.
unfoldable pub usable_leases : Option (Option Bytes × Bytes) → Option Bytes → ℕ → Option ℕ
unfolding broadcast_of
usable_leases subnet start max = elim start [
  | none ↦ some 0
  | some start4 ↦ elim subnet [
    | none ↦ some 0
    | some (network, mask) ↦ elim network [
      | none ↦ none
      | some ip4 ↦
          let net_addr = read32 ip4 in
          let broadcast = broadcast_of net_addr (read32 mask) in
          let first = read32 start4 in
          if ltb first net_addr || leb broadcast first
          then some 0
          else if ltb max (broadcast - first)
          then some max
          else some (broadcast - first)
    ]
  ]
]

-- A pool of the size that `UsableLeases` gives leases no address outside the subnet and never the
-- broadcast address: every offset below the size stays between the network's address and the one
-- before the broadcast address. The size is at most `max`.
pub usable_leases_inside :
    (ip4 mask start4 : Bytes) (max size off : ℕ)
    → length start4 ≡ 4
    → usable_leases (some (some ip4, mask)) (some start4) max ≡ some size
    → off < size
    → (size ≤ max)
      × (lease_addr (new_pool (some start4) size) off ≡ be32 (read32 start4 + off))
      × (read32 ip4 ≤ read32 start4 + off)
      × (read32 start4 + off < broadcast_of (read32 ip4) (read32 mask))
unfolding usable_leases lease_addr new_pool
usable_leases_inside ip4 mask start4 max size off four h below =
    let bounds : (size ≤ max)
        × (size ≤ broadcast_of (read32 ip4) (read32 mask) - read32 start4)
        × (read32 ip4 ≤ read32 start4)
        × (read32 start4 < broadcast_of (read32 ip4) (read32 mask)) =
      ground arith in
    let (small, room, low, high) = bounds in
    let top : broadcast_of (read32 ip4) (read32 mask) < 2 ^ 32 =
      unfold broadcast_of in omega arith in
    let wide : (read32 start4 + off % 2 ^ 32) % 2 ^ 32 ≡ read32 start4 + off = omega arith in
    (
      small,
      ap (λ b. be32 ((read32 b + off % 2 ^ 32) % 2 ^ 32)) (copy_n_lem 4 start4 four) ∙ ap be32 wide,
      omega arith,
      omega arith,
    )
