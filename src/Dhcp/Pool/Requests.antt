-- ===== src/Dhcp/Pool/Requests.antt =====
-- Sequences of requests: leases are stable, distinct and in range, and a pool of n addresses
-- serves exactly n clients.
use uml_kernel_build.Common.{
  ℕ, ◌^◌, ◌≤◌, ◌<◌, ◌≡◌, ◌↔◌, refl, ◌∙◌, Option, none, some, List, [], ◌∷◌, arith, nat_eq, bytes_eq,
  length, Bytes, bytes_beq_self, bytes_beq_iff, copy_n, lookup, lookup-insert,
}
use uml_kernel_build.Dhcp.Pool.{Pool, new_pool, lease_addr, get_or_assign}
use uml_kernel_build.Dhcp.Pool.Unique.{IsPool, new_pool-IsPool, get_or_assign-IsPool}

-- The pool after requests from these MACs, in order.
unfoldable pub serve : List Bytes → Pool → Pool
serve [] p = p
serve (mac ∷ macs) p = serve macs (get_or_assign mac p).1

get_or_assign-size :
    (mac : Bytes) (p : Pool)
    → ((get_or_assign mac p).1.size ≡ p.size) × ((get_or_assign mac p).1.base ≡ p.base)
unfolding get_or_assign
get_or_assign-size mac p = ground arith

pub serve-IsPool :
    (macs : List Bytes) (p : Pool) → p.size ≤ 2 ^ 32 → IsPool p → IsPool (serve macs p)
unfolding serve
serve-IsPool [] p small v = v
serve-IsPool (mac ∷ macs) p small v =
    serve-IsPool macs (get_or_assign mac p).1 (omega (arith, (get_or_assign-size mac p).0))
      (get_or_assign-IsPool mac small v)

pub serve-size :
    (macs : List Bytes) (p : Pool) → ((serve macs p).size ≡ p.size) × ((serve macs p).base ≡ p.base)
unfolding serve
serve-size [] p = (refl, refl)
serve-size (mac ∷ macs) p =
    let (a, b) = serve-size macs (get_or_assign mac p).1 in
    let (c, d) = get_or_assign-size mac p in (a ∙ c, b ∙ d)

pub lease_addr-base : (p q : Pool) (off : ℕ) → p.base ≡ q.base → lease_addr p off ≡ lease_addr q off
unfolding lease_addr
lease_addr-base p q off e = rw e

pub new_pool-size : (start : Option Bytes) (size : ℕ) → (new_pool start size).size ≡ size
unfolding new_pool
new_pool-size start size = refl

-- After any requests to a new pool two MACs with one address are one MAC, and each address is
-- `start` plus an offset below the pool's size.
pub serve_unique :
    (start : Option Bytes) (size : ℕ) (macs : List Bytes) (mac mac' ip : Bytes)
    → size ≤ 2 ^ 32
    → lookup mac (serve macs (new_pool start size)).assigned ≡ some ip
    → lookup mac' (serve macs (new_pool start size)).assigned ≡ some ip
    → (mac ≡ mac') × (off : ℕ) × (off < size) × (ip ≡ lease_addr (new_pool start size) off)
serve_unique start size macs mac mac' ip small h h' =
    let p = new_pool start size in
    let v =
      serve-IsPool macs p (omega (arith, new_pool-size start size)) (new_pool-IsPool start size) in
    let (sizes, bases) = serve-size macs p in
    let (off, below, at) = v.held mac ip h in
    let within = v.within in
    (
      v.unique mac mac' ip h h',
      off,
      omega (arith, new_pool-size start size),
      at ∙ lease_addr-base (serve macs p) p off bases,
    )

pub get_or_assign-keeps :
    (mac : Bytes) (p : Pool) (key ip : Bytes)
    → lookup key p.assigned ≡ some ip
    → lookup key (get_or_assign mac p).1.assigned ≡ some ip
unfolding get_or_assign
get_or_assign-keeps mac p key ip h = ground (
  arith,
  bytes_beq_iff (copy_n 6 mac) key,
  lookup-insert (copy_n 6 mac) key (lease_addr p p.next) p.assigned,
)

serve-keeps :
    (macs : List Bytes) (p : Pool) (key ip : Bytes)
    → lookup key p.assigned ≡ some ip
    → lookup key (serve macs p).assigned ≡ some ip
unfolding serve
serve-keeps [] p key ip h = h
serve-keeps (mac ∷ macs) p key ip h =
    serve-keeps macs (get_or_assign mac p).1 key ip (get_or_assign-keeps mac p key ip h)

get_or_assign-records :
    (mac : Bytes) (p : Pool) (ip : Bytes)
    → (get_or_assign mac p).0 ≡ some ip
    → lookup (copy_n 6 mac) (get_or_assign mac p).1.assigned ≡ some ip
unfolding get_or_assign
get_or_assign-records mac p ip h = ground (
  arith,
  bytes_beq_self (copy_n 6 mac),
  lookup-insert (copy_n 6 mac) (copy_n 6 mac) (lease_addr p p.next) p.assigned,
)

pub get_or_assign-found :
    (mac : Bytes) (p : Pool) (ip : Bytes)
    → lookup (copy_n 6 mac) p.assigned ≡ some ip
    → get_or_assign mac p ≡ (some ip, p)
unfolding get_or_assign
get_or_assign-found mac p ip h = rw (h, get_or_assign)

-- A client that got an address gets the same one whenever it asks again, whoever asked in between,
-- and asking again changes nothing.
pub get_or_assign_stable :
    (mac : Bytes) (p : Pool) (ip : Bytes) (macs : List Bytes)
    → (get_or_assign mac p).0 ≡ some ip
    → get_or_assign mac (serve macs (get_or_assign mac p).1)
      ≡ (some ip, serve macs (get_or_assign mac p).1)
get_or_assign_stable mac p ip macs h =
    get_or_assign-found mac _ ip
      (serve-keeps macs _ (copy_n 6 mac) ip (get_or_assign-records mac p ip h))

-- In a pool that meets the invariant a request fails exactly when the client is new and as many
-- clients as the pool has addresses hold one.
pub get_or_assign_exhausted :
    (mac : Bytes) (p : Pool)
    → IsPool p
    → ((get_or_assign mac p).0 ≡ none)
      ↔ ((lookup (copy_n 6 mac) p.assigned ≡ none) × (length p.assigned ≡ p.size))
unfolding get_or_assign
get_or_assign_exhausted mac p v = (λ h. ground arith, λ (absent, full). ground arith)
