-- ===== src/Nat/Flows.antt =====
-- Where the guest's flows go.
use uml_kernel_build.Common.{
  ℕ, ◌≡◌, ◌≢◌, ◌⊎◌, inl, inr, refl, ap, true, false, List, [], ◌∷◌, ◌++◌, arith, Bool-cases, nat_eq,
  bytes_eq, All, Bytes,
}
use uml_kernel_build.Config.Strings.{Text}
use uml_kernel_build.Nat.{
  Addresses, Dials, Nat, refused, on_host, on_tunnel, has, loopback, covers, dials_tunnel, dial_tcp,
  first_resolver, dial_udp,
}

-- Each of the servers is refused by the host.
Refuses : Dials → List Text → Type 0
Refuses d servers = All (λ s. d.host_udp s 53 ≡ false) servers

first_resolver-first :
    (a : Addresses) (d : Dials) (servers : List Text)
    → ((first_resolver a d servers ≡ refused) × Refuses d servers)
      ⊎ ((before : List Text) × (server : Text) × (after : List Text) × (servers
            ≡ before ++ (server ∷ after))
          × Refuses d before
          × (d.host_udp server 53 ≡ true)
          × (first_resolver a d servers ≡ on_host server 53))
unfolding first_resolver Refuses
first_resolver-first a d [] = inl (refl, tt)
first_resolver-first a d (s ∷ servers) = elim (Bool-cases (d.host_udp s 53)) [
  | inl up ↦ inr ([], s, servers, refl, tt, up, rw (up, first_resolver) refl)
  | inr down ↦ elim (first_resolver-first a d servers) [
    | inl (none_left, all) ↦ inl (rw (down, first_resolver) none_left, (down, all))
    | inr (before, server, after, at, all, up, got) ↦
        inr
          (s ∷ before, server, after, ap (◌∷◌ s) at, (down, all), up, rw (down, first_resolver) got)
  ]
]

module _ (a : Addresses) (d : Dials) where
  -- A DNS query to an address that serves DNS goes to the first of the host's resolvers that a socket
  -- can be had to, and to none only if they all refuse.
  pub dial_udp_dns :
      (n : Nat) (dst_ip : Text)
      → has n.dns_addrs dst_ip ≡ true
      → ((dial_udp a d n dst_ip 53 ≡ refused) × All (λ s. d.host_udp s 53 ≡ false) n.resolvers)
        ⊎ ((before : List Text) × (server : Text) × (after : List Text) × (n.resolvers
              ≡ before ++ (server ∷ after))
            × All (λ s. d.host_udp s 53 ≡ false) before
            × (d.host_udp server 53 ≡ true)
            × (dial_udp a d n dst_ip 53 ≡ on_host server 53))
  unfolding dial_udp Refuses
  dial_udp_dns n dst_ip serves = rw (serves, dial_udp) (first_resolver-first a d n.resolvers)

  -- Where the tunnel's subnets cover 127.0.0.1, as 0.0.0.0/0 does, a flow to one of the netstack's own
  -- addresses, no DNS query, is connected to the host by TCP but sent into the tunnel by UDP.
  pub dial_udp_own_address :
      (n : Nat) (dst : Bytes) (port : ℕ)
      → has n.local_addrs (a.show dst) ≡ true
      → port ≢ 53
      → covers a n.tunnel_subnets (a.parse loopback) ≡ true
      → d.host_tcp loopback port ≡ true
      → d.stack_udp (a.parse loopback) port ≡ true
      → (dial_tcp a d n dst port ≡ on_host loopback port)
        × (dial_udp a d n (a.show dst) port ≡ on_tunnel (a.parse loopback) port)
  unfolding dial_udp dial_tcp dials_tunnel
  dial_udp_own_address n dst port own query covered tcp_up udp_up = (ground arith, ground arith)
