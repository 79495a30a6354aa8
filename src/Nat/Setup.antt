-- ===== src/Nat/Setup.antt =====
-- What `New` sets up: the addresses that serve DNS are among the netstack's own.
use uml_kernel_build.Common.{
  ◌≡◌, inl, inr, Bool, true, Option, some, List, [], ◌∷◌, arith, if◌then◌else◌, Bool-cases,
  Option-cases, nat_eq, bytes_eq, bytes_beq,
}
use uml_kernel_build.Config.Strings.{Text}
use uml_kernel_build.Nat.{Addresses, Nat, has, resolvers, own_addresses, own_addresses6, new}

-- Each address that serves DNS is the netstack's own.
abbrev pub DnsIsLocal : Nat → Type 0
DnsIsLocal n = (t : Text) → has n.dns_addrs t ≡ true → has n.local_addrs t ≡ true

module _ (a : Addresses) (addable : List Text → Text → Bool) where
  own_addresses-DnsIsLocal :
      (nameserver : Text) (addrs : List Text) (n n' : Nat)
      → DnsIsLocal n
      → own_addresses a addable nameserver addrs n ≡ some n'
      → DnsIsLocal n'
  unfolding own_addresses has
  own_addresses-DnsIsLocal nameserver [] n n' v h =
      let same : n ≡ n' = ground arith in rw (← same) v
  own_addresses-DnsIsLocal nameserver (addr ∷ addrs) n n' v h =
      elim (Option-cases (a.parse_ip4 addr)) [
        | inl bad ↦ absurd (ground arith)
        | inr (ip, e) ↦ elim (Bool-cases (addable n.local_addrs addr)) [
          | inr taken ↦ absurd (ground arith)
          | inl fresh ↦
              let n1 : Nat = record n {
                local_addrs = addr ∷ n.local_addrs;
                dns_addrs = if bytes_beq addr nameserver then addr ∷ n.dns_addrs else n.dns_addrs;
              } in
              let v1 : DnsIsLocal n1 = λ t d. ground (arith, v t) in
              own_addresses-DnsIsLocal nameserver addrs n1 n' v1 (rw (e, fresh, own_addresses) at h)
        ]
      ]

  own_addresses6-DnsIsLocal :
      (n n' : Nat) → DnsIsLocal n → own_addresses6 a addable n ≡ some n' → DnsIsLocal n'
  unfolding own_addresses6 has
  own_addresses6-DnsIsLocal n n' v h t d = ground (arith, v t)

  pub new-DnsIsLocal :
      (resolv_conf : Option Text) (gateway nameserver network : Text) (ipv6 : Bool) (n : Nat)
      → new a addable resolv_conf gateway nameserver network ipv6 ≡ some n
      → DnsIsLocal n
  unfolding new
  new-DnsIsLocal resolv_conf gateway nameserver network ipv6 n h =
      let empty : Nat = record {
        resolvers = resolvers resolv_conf;
        local_addrs = [];
        dns_addrs = [];
        tunnel_subnets = [];
        routes = [];
      } in
      let v0 : DnsIsLocal empty = λ t d. absurd (unfold has in cc) in
      elim (Option-cases (own_addresses a addable nameserver (gateway ∷ nameserver ∷ []) empty)) [
        | inl bad ↦ absurd (ground arith)
        | inr (n1, e) ↦ elim (Option-cases (a.parse_network network)) [
          | inl bad ↦ absurd (ground arith)
          | inr (net, p) ↦
              let n4 : Nat = record n1 { routes = (net, 1) ∷ [] } in
              let v1 =
                own_addresses-DnsIsLocal nameserver (gateway ∷ nameserver ∷ []) empty n1 v0 e in
              let v4 : DnsIsLocal n4 = λ t d. v1 t d in
              elim (Bool-cases ipv6) [
                | inr off ↦ let same : n4 ≡ n = ground arith in rw (← same) v4
                | inl on ↦ own_addresses6-DnsIsLocal n4 n v4 (rw (e, p, on, new) at h)
              ]
        ]
      ]
