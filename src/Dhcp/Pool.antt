-- ===== src/Dhcp/Pool.antt =====
-- The lease pool of vdeplug-go/internal/dhcp/dhcp.go. The mutex makes each method one step, so a
-- method returns the new pool beside its result.
pub mod Unique
pub mod Requests
pub mod Restored
use uml_kernel_build.Common.{
  ℕ, zero, suc, ◌+◌, ◌%◌, ◌^◌, Option, none, some, List, [], ◌∷◌, ◌++◌, leb, if◌then◌else◌, nat_eq,
  bytes_eq, length, Bytes, bytes_beq, copy_n, be32, read32, Dict, lookup, insert,
}

pub record Pool : Type 0 where
  pub base : Bytes
  pub size : ℕ
  pub next : ℕ
  pub assigned : Dict Bytes Bytes
  pub order : List Bytes

-- `start` is the argument's `To4()`; copying nil leaves the base at 0.0.0.0.
unfoldable pub new_pool : Option Bytes → ℕ → Pool
new_pool start size = record {
  base = copy_n 4 (elim start [ none ↦ [] | some ip4 ↦ ip4 ]);
  size = size;
  next = 0;
  assigned = [];
  order = [];
}

unfoldable pub lease_addr : Pool → ℕ → Bytes
lease_addr p off = be32 ((read32 p.base + off % 2 ^ 32) % 2 ^ 32)

-- `none` is the error "dhcp pool exhausted".
unfoldable pub get_or_assign : Bytes → Pool → Option Bytes × Pool
get_or_assign mac p =
    let key = copy_n 6 mac in
    elim (lookup key p.assigned) [
      | some ip ↦ (some ip, p)
      | none ↦
          if leb p.size p.next
          then (none, p)
          else let ip = lease_addr p p.next in
            (
              some ip,
              record p {
                next = p.next + 1;
                assigned = insert key ip p.assigned;
                order = p.order ++ (key ∷ []);
              },
            )
    ]

-- The first MAC that the range over the map meets with this address.
unfoldable pub holder : Bytes → Dict Bytes Bytes → Option Bytes
holder ip [] = none
holder ip ((mac, a) ∷ leases) = if bytes_beq a ip then some mac else holder ip leases

-- One round of the outer loop of `Restore`.
unfoldable pub restore_at : Dict Bytes Bytes → ℕ → Pool → Pool
restore_at leases off p =
    let ip = lease_addr p off in
    elim (holder ip leases) [
      | none ↦ p
      | some mac ↦ elim (lookup mac p.assigned) [
        | some _ ↦ p
        | none ↦ record p { assigned = insert mac ip p.assigned; order = p.order ++ (mac ∷ []) }
      ]
    ]

-- `rounds` is what is left of the loop, which has reached `off`.
unfoldable pub restore_from : Dict Bytes Bytes → ℕ → ℕ → Pool → Pool
restore_from leases zero off p = p
restore_from leases (suc rounds) off p =
    restore_from leases rounds (off + 1) (restore_at leases off p)

unfoldable pub restore : Dict Bytes Bytes → Pool → Pool
restore leases p =
    let p' = restore_from leases p.size 0 p in record p' { next = length p'.assigned }

unfoldable pub first : Pool → Option Bytes
first p = elim p.order [ [] ↦ none | mac ∷ _ ↦ lookup mac p.assigned ]
