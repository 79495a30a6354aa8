-- ===== src/Dhcp/Pool/Unique.antt =====
-- A pool that serves requests never gives one address to two MACs.
use uml_kernel_build.Common.{
  ℕ, ◌+◌, ◌%◌, ◌^◌, ◌≤◌, ◌<◌, ◌≡◌, inl, inr, refl, sym, ap, ◌∙◌, Option, none, some, List, arith,
  leb, Bool-cases, Option-cases, nat_eq, bytes_eq, length, Bytes, IsU32, copy_n, read32, lookup,
  insert, length-insert_new, lookup-insert_inv,
}
use uml_kernel_build.Dhcp.Pool.{Pool, new_pool, lease_addr, get_or_assign}

lease_addr-read32 :
    (p : Pool) (off : ℕ) → read32 (lease_addr p off) ≡ (read32 p.base + off) % 2 ^ 32
unfolding lease_addr
lease_addr-read32 p off = omega arith

-- Offsets below 2^32 have addresses of their own, whatever the base.
pub lease_addr-injective :
    (p : Pool) (i j : ℕ) → IsU32 i → IsU32 j → lease_addr p i ≡ lease_addr p j → i ≡ j
lease_addr-injective p i j hi hj e =
    omega (arith, lease_addr-read32 p i, lease_addr-read32 p j, ap read32 e)

pub record IsPool (p : Pool) : Type 0 where
  pub within : p.next ≤ p.size
  pub counted : length p.assigned ≡ p.next
  pub held :
      (mac ip : Bytes)
      → lookup mac p.assigned ≡ some ip
      → (off : ℕ) × (off < p.next) × (ip ≡ lease_addr p off)
  pub unique :
      (mac mac' ip : Bytes)
      → lookup mac p.assigned ≡ some ip
      → lookup mac' p.assigned ≡ some ip
      → mac ≡ mac'

pub new_pool-IsPool : (start : Option Bytes) (size : ℕ) → IsPool (new_pool start size)
unfolding new_pool lookup
new_pool-IsPool start size = record {
  within = omega arith;
  counted = refl;
  held = λ mac ip h. cc;
  unique = λ mac mac' ip h. cc;
}

-- One new lease keeps the invariant.
grown-IsPool :
    (p : Pool) (key : Bytes) (order : List Bytes)
    → IsPool p
    → p.next < p.size
    → p.size ≤ 2 ^ 32
    → lookup key p.assigned ≡ none
    → IsPool (record p {
      next = p.next + 1;
      assigned = insert key (lease_addr p p.next) p.assigned;
      order = order;
    })
unfolding lease_addr
grown-IsPool p key order v room small fresh = record {
  within = omega arith;
  counted = omega (arith, v.counted, length-insert_new key (lease_addr p p.next) p.assigned fresh);
  held = λ mac ip h. elim (lookup-insert_inv key mac ip' ip p.assigned h) [
    | inl (_, here) ↦ (p.next, omega arith, here)
    | inr (_, old) ↦ let (off, below, at) = v.held mac ip old in (off, omega arith, at)
  ];
  unique = λ mac mac' ip h h'. elim (lookup-insert_inv key mac ip' ip p.assigned h) [
    | inl (here, e) ↦ elim (lookup-insert_inv key mac' ip' ip p.assigned h') [
      | inl (here', _) ↦ here ∙ sym here'
      | inr (_, old) ↦ absurd (taken mac' ip e old)
    ]
    | inr (_, old) ↦ elim (lookup-insert_inv key mac' ip' ip p.assigned h') [
      | inl (_, e) ↦ absurd (taken mac ip e old)
      | inr (_, old') ↦ v.unique mac mac' ip old old'
    ]
  ];
}
  where
    ip' : Bytes
    ip' = lease_addr p p.next

    taken : (mac ip : Bytes) → ip ≡ lease_addr p p.next → lookup mac p.assigned ≡ some ip → ⊥
    taken mac ip e old =
        let (off, below, at) = v.held mac ip old in
        let same : off ≡ p.next =
          lease_addr-injective p off p.next (omega arith) (omega arith) (sym at ∙ e) in
        omega arith

-- `GetOrAssign` keeps the invariant on each of its three branches.
pub get_or_assign-IsPool :
    (mac : Bytes) {p : Pool} → p.size ≤ 2 ^ 32 → IsPool p → IsPool (get_or_assign mac p).1
unfolding get_or_assign
get_or_assign-IsPool mac {p} small v = elim (Option-cases (lookup (copy_n 6 mac) p.assigned)) [
  | inr (ip, e) ↦ rw (e, get_or_assign) v
  | inl e ↦ elim (Bool-cases (leb p.size p.next)) [
    | inl full ↦ rw (e, full, get_or_assign) v
    | inr room ↦ rw (e, room, get_or_assign) (grown-IsPool p _ _ v (ground arith) small e)
  ]
]
