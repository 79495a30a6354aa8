-- ===== src/Dhcp/Pool/Restored.antt =====
-- `Restore`: what a promoted hub inherits from the gossiped lease table.
use uml_kernel_build.Common.{
  ℕ, zero, suc, ◌+◌, ◌≤◌, ◌<◌, ◌≡◌, ◌≢◌, ◌↔◌, ◌⊎◌, inl, inr, ◌∙◌, Option, none, some, [], ◌∷◌,
  arith, Option-cases, nat_eq, bytes_eq, Bytes, bytes_beq_self, bytes_beq_iff, Dict, lookup,
  lookup-insert, lookup-insert_inv, NodupKeys,
}
use native.Mathlib.Decide.{ℕ_discrete}
use uml_kernel_build.Dhcp.Pool.{
  Pool, new_pool, lease_addr, holder, restore_at, restore_from, restore,
}

holder-lookup :
    (leases : Dict Bytes Bytes) (ip mac : Bytes)
    → NodupKeys leases
    → holder ip leases ≡ some mac
    → lookup mac leases ≡ some ip
unfolding holder lookup
holder-lookup [] ip mac n h = cc
holder-lookup ((j, w) ∷ m) ip mac n h =
    ground
      (arith, bytes_beq_iff w ip, bytes_beq_iff j mac, bytes_beq_self j, holder-lookup m ip mac)

holder-ne-none :
    (leases : Dict Bytes Bytes) (ip mac : Bytes)
    → lookup mac leases ≡ some ip
    → holder ip leases ≢ none
unfolding holder lookup
holder-ne-none [] ip mac h = λ e. cc
holder-ne-none ((j, w) ∷ m) ip mac h = ground (arith, bytes_beq_iff w ip, holder-ne-none m ip mac)

module _ (leases : Dict Bytes Bytes) (keys : NodupKeys leases)
    (one : (mac mac' ip : Bytes)
      → lookup mac leases ≡ some ip
      → lookup mac' leases ≡ some ip
      → mac ≡ mac') where
  -- Everything that the pool holds was gossiped.
  abbrev Inherits : Pool → Type 0
  Inherits p = (mac ip : Bytes) → lookup mac p.assigned ≡ some ip → lookup mac leases ≡ some ip

  restore_at-Inherits : (off : ℕ) (p : Pool) → Inherits p → Inherits (restore_at leases off p)
  unfolding restore_at
  restore_at-Inherits off p inherits mac ip h =
      elim (Option-cases (holder (lease_addr p off) leases)) [
        | inl e ↦ inherits mac ip (rw (e, restore_at) at h)
        | inr (mac', e) ↦ elim (Option-cases (lookup mac' p.assigned)) [
          | inr (a, held) ↦ inherits mac ip (ground arith)
          | inl free ↦
              elim (lookup-insert_inv mac' mac (lease_addr p off) ip p.assigned (ground arith)) [
                | inl (m, i) ↦ rw (m, i) (holder-lookup leases _ mac' keys e)
                | inr (_, old) ↦ inherits mac ip old
              ]
        ]
      ]

  restore_at-keeps :
      (off : ℕ) (p : Pool) (mac ip : Bytes)
      → lookup mac p.assigned ≡ some ip
      → lookup mac (restore_at leases off p).assigned ≡ some ip
  unfolding restore_at
  restore_at-keeps off p mac ip h = elim (Option-cases (holder (lease_addr p off) leases)) [
    | inl e ↦ rw (e, restore_at) h
    | inr (mac', e) ↦
        ground (arith, bytes_beq_iff mac' mac, lookup-insert mac' mac (lease_addr p off) p.assigned)
  ]

  restore_at-takes :
      (off : ℕ) (p : Pool) (mac : Bytes)
      → Inherits p
      → lookup mac leases ≡ some (lease_addr p off)
      → lookup mac (restore_at leases off p).assigned ≡ some (lease_addr p off)
  unfolding restore_at
  restore_at-takes off p mac inherits h = elim (Option-cases (holder (lease_addr p off) leases)) [
    | inl e ↦ absurd (holder-ne-none leases (lease_addr p off) mac h e)
    | inr (mac', e) ↦
        let same : mac' ≡ mac = one mac' mac _ (holder-lookup leases _ mac' keys e) h in
        elim (Option-cases (lookup mac p.assigned)) [
          | inr (a, held) ↦ ground (arith, inherits mac a held)
          | inl free ↦
              ground
                (arith, bytes_beq_self mac, lookup-insert mac mac (lease_addr p off) p.assigned)
        ]
  ]

  restore_at-base :
      (off : ℕ) (p : Pool)
      → ((restore_at leases off p).base ≡ p.base)
        × ((restore_at leases off p).size ≡ p.size)
        × ((restore_at leases off p).next ≡ p.next)
  unfolding restore_at
  restore_at-base off p = ground arith

  restore_at-addr : (off o : ℕ) (p : Pool) → lease_addr (restore_at leases off p) o ≡ lease_addr p o
  unfolding lease_addr
  restore_at-addr off o p = rw (restore_at-base off p).0

  restore_from-Inherits :
      (rounds off : ℕ) (p : Pool) → Inherits p → Inherits (restore_from leases rounds off p)
  unfolding restore_from
  restore_from-Inherits zero off p i = i
  restore_from-Inherits (suc rounds) off p i =
      restore_from-Inherits rounds (off + 1) (restore_at leases off p) (restore_at-Inherits off p i)

  restore_from-keeps :
      (rounds off : ℕ) (p : Pool) (mac ip : Bytes)
      → lookup mac p.assigned ≡ some ip
      → lookup mac (restore_from leases rounds off p).assigned ≡ some ip
  unfolding restore_from
  restore_from-keeps zero off p mac ip h = h
  restore_from-keeps (suc rounds) off p mac ip h =
      restore_from-keeps rounds (off + 1) (restore_at leases off p) mac ip
        (restore_at-keeps off p mac ip h)

  restore_from-takes :
      (rounds off o : ℕ) (p : Pool) (mac : Bytes)
      → Inherits p
      → off ≤ o
      → o < off + rounds
      → lookup mac leases ≡ some (lease_addr p o)
      → lookup mac (restore_from leases rounds off p).assigned ≡ some (lease_addr p o)
  unfolding restore_from
  restore_from-takes zero off o p mac i lo hi h = absurd (omega arith)
  restore_from-takes (suc rounds) off o p mac i lo hi h = elim (ℕ_discrete off o) [
    | yes e ↦
        restore_from-keeps rounds (off + 1) (restore_at leases off p) mac (lease_addr p o)
          (rw (← e) (restore_at-takes off p mac i (rw e h)))
    | no n ↦
        let q = restore_at leases off p in
        let more : lookup mac (restore_from leases rounds (off + 1) q).assigned
            ≡ some (lease_addr q o) =
          restore_from-takes rounds (off + 1) o q mac (restore_at-Inherits off p i) (omega arith)
            (omega arith) (rw restore_at-addr h) in
        rw restore_at-addr at more
  ]

  -- A round writes no address but its own.
  restore_at-range :
      (off : ℕ) (p : Pool) (mac ip : Bytes)
      → lookup mac (restore_at leases off p).assigned ≡ some ip
      → (lookup mac p.assigned ≡ some ip) ⊎ (ip ≡ lease_addr p off)
  unfolding restore_at
  restore_at-range off p mac ip h = elim (Option-cases (holder (lease_addr p off) leases)) [
    | inl e ↦ inl (rw (e, restore_at) at h)
    | inr (mac', e) ↦ elim (Option-cases (lookup mac' p.assigned)) [
      | inr (a, held) ↦ inl (ground arith)
      | inl free ↦
          elim (lookup-insert_inv mac' mac (lease_addr p off) ip p.assigned (ground arith)) [
            | inl (_, here) ↦ inr here
            | inr (_, old) ↦ inl old
          ]
    ]
  ]

  restore_from-range :
      (rounds off : ℕ) (p : Pool) (mac ip : Bytes)
      → lookup mac (restore_from leases rounds off p).assigned ≡ some ip
      → (lookup mac p.assigned ≡ some ip) ⊎ ((o : ℕ) × (o < off + rounds) × (ip ≡ lease_addr p o))
  unfolding restore_from
  restore_from-range zero off p mac ip h = inl h
  restore_from-range (suc rounds) off p mac ip h =
      elim (restore_from-range rounds (off + 1) (restore_at leases off p) mac ip h) [
        | inr (o, below, at) ↦ inr (o, omega arith, at ∙ restore_at-addr off o p)
        | inl old ↦ elim (restore_at-range off p mac ip old) [
          | inl older ↦ inl older
          | inr at ↦ inr (off, omega arith, at)
        ]
      ]

  in_range :
      (size : ℕ) (p : Pool) (ip : Bytes)
      → ((o : ℕ) × (o < 0 + size) × (ip ≡ lease_addr p o))
      → (o : ℕ) × (o < size) × (ip ≡ lease_addr p o)
  in_range size p ip (o, below, at) = (o, omega arith, at)

  -- For a table without a shared address, a new pool of at most 2 ^ 32 addresses that is restored from
  -- it has exactly the entries of the table whose address lies in the pool's range.
  pub restore_iff :
      (start : Option Bytes) (size : ℕ) (mac ip : Bytes)
      → (lookup mac (restore leases (new_pool start size)).assigned ≡ some ip) ↔ (
          (lookup mac leases ≡ some ip)
          × (o : ℕ) × (o < size)
          × (ip ≡ lease_addr (new_pool start size) o))
  unfolding restore new_pool
  restore_iff start size mac ip =
      let p = new_pool start size in
      let i : Inherits p = λ m a h. absurd (unfold lookup in cc) in
      (
        λ h.
            let (o, below, at) = in_range size p ip (elim (restore_from-range size 0 p mac ip h) [
              | inl old ↦ absurd (unfold lookup in cc)
              | inr found ↦ found
            ]) in
            (restore_from-Inherits size 0 p i mac ip h, o, below, at),
        λ (known, o, below, at).
            rw at
              (restore_from-takes size 0 o p mac i (omega arith) (omega arith) (rw at at known)),
      )
