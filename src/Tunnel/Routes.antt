-- ===== src/Tunnel/Routes.antt =====
-- What attaching the tunnel does to the netstack.
use uml_kernel_build.Common.{
  ℕ, ◌≡◌, ◌≢◌, ◌↔◌, ◌⊎◌, if◌then◌else◌, inl, inr, refl, sym, ap, ◌∙◌, Bool, true, false, ◌&&◌, ◌||◌,
  Option, none, some, List, [], ◌∷◌, ◌++◌, map, append-nil, append_assoc, arith, ◌==◌, Bool-cases,
  Option-cases, nat_eq, bytes_eq, All, Bytes, codes,
}
use uml_kernel_build.Config.Strings.{Text}
use uml_kernel_build.Wireguard.{Conf}
use uml_kernel_build.Nat as Nats
use uml_kernel_build.Nat.{
  Addresses, Nat, resolvers, own_addresses, own_addresses6, add_route, set_tunnel_subnets, covers,
  dials_tunnel, Dials, dial_tcp, Socket, on_tunnel, on_host, refused, loopback, has,
}
use uml_kernel_build.Tunnel.{
  standalone, switched, wg_nic, Networks, Stack, subnet_of, add_routes, set_mode, attach,
}

-- Some route to the NIC covers the destination.
unfoldable pub reaches : (Bytes × ℕ → Bytes → Bool) → ℕ → List ((Bytes × ℕ) × ℕ) → Bytes → Bool
reaches contains nic [] dst = false
reaches contains nic ((net, out) ∷ routes) dst =
    ((out == nic) && contains net dst) || reaches contains nic routes dst

abbrev pub AllOut : ℕ → List ((Bytes × ℕ) × ℕ) → Type 0
AllOut nic routes = All (λ (r : (Bytes × ℕ) × ℕ). r.1 ≡ nic) routes

module _ (a : Addresses) where
  own_addresses6-routes :
      (addable : List Text → Text → Bool) (n n' : Nat)
      → own_addresses6 a addable n ≡ some n'
      → n'.routes ≡ n.routes ++ (((a.parse (codes "fec0::"), 64), 1) ∷ [])
  unfolding own_addresses6
  own_addresses6-routes addable n n' h = ground arith

  -- Every route of a new netstack leaves by the guest's NIC.
  pub new-AllOut :
      (addable : List Text → Text → Bool) (resolv_conf : Option Text)
      (gateway nameserver network : Text) (ipv6 : Bool) (n : Nat)
      → Nats.new a addable resolv_conf gateway nameserver network ipv6 ≡ some n
      → AllOut 1 n.routes
  unfolding Nats.new
  new-AllOut addable resolv_conf gateway nameserver network ipv6 n h =
      let empty : Nat = record {
        resolvers = resolvers resolv_conf;
        local_addrs = [];
        dns_addrs = [];
        tunnel_subnets = [];
        routes = [];
      } in
      elim (Option-cases (own_addresses a addable nameserver (gateway ∷ nameserver ∷ []) empty)) [
        | inl bad ↦ absurd (ground arith)
        | inr (n1, e) ↦ elim (Option-cases (a.parse_network network)) [
          | inl bad ↦ absurd (ground arith)
          | inr (net, p) ↦
              let n4 : Nat = record n1 { routes = (net, 1) ∷ [] } in
              elim (Bool-cases ipv6) [
                | inr off ↦ let same : n4 ≡ n = ground arith in rw (← same) (refl, tt)
                | inl on ↦
                    let built : own_addresses6 a addable n4 ≡ some n =
                      rw (e, p, on, Nats.new) at h in
                    let same : n.routes ≡ n4.routes ++ (((a.parse (codes "fec0::"), 64), 1) ∷ []) =
                      own_addresses6-routes addable n4 n built in
                    rw same (refl, (refl, tt))
              ]
        ]
      ]

  reaches-other :
      (nic : ℕ) (routes : List ((Bytes × ℕ) × ℕ)) (dst : Bytes)
      → AllOut 1 routes
      → nic ≢ 1
      → reaches a.contains nic routes dst ≡ false
  unfolding reaches
  reaches-other nic [] dst h ne = refl
  reaches-other nic ((net, out) ∷ routes) dst (here, more) ne =
      ground (arith, reaches-other nic routes dst more ne)

  reaches-append :
      (nic : ℕ) (r q : List ((Bytes × ℕ) × ℕ)) (dst : Bytes)
      → reaches a.contains nic (r ++ q) dst
        ≡ (reaches a.contains nic r dst || reaches a.contains nic q dst)
  unfolding reaches
  reaches-append nic [] q dst = refl
  reaches-append nic ((net, out) ∷ r) q dst = ground (arith, reaches-append nic r q dst)

-- Where `tcpHandler` dials, by its three tests.
dial_tcp_lem :
    (a : Addresses) (d : Dials) (n : Nat) (dst : Bytes) (port : ℕ) (locals : List Text)
    (covered : Bool)
    → n.local_addrs ≡ locals
    → dials_tunnel a n dst ≡ covered
    → ((dial_tcp a d n dst port ≡ on_tunnel dst port)
        ↔ ((has locals (a.show dst) ≡ false) × (covered ≡ true) × (d.stack_tcp dst port ≡ true)))
      × ((has locals (a.show dst) ≡ false)
          ⊎ (dial_tcp a d n dst port
              ≡ (if d.host_tcp loopback port then on_host loopback port else refused)))
unfolding dial_tcp
dial_tcp_lem a d n dst port locals covered l t = elim (Bool-cases (has locals (a.show dst))) [
  | inl own ↦
      let own' : has n.local_addrs (a.show dst) ≡ true = ap (λ ls. has ls (a.show dst)) l ∙ own in
      ((λ e. ground arith, λ e. absurd (cc (own, e.0))), inr (rw own' refl))
  | inr foreign ↦
      let foreign' : has n.local_addrs (a.show dst) ≡ false =
        ap (λ ls. has ls (a.show dst)) l ∙ foreign in
      (ground (arith, foreign'), inl foreign)
]

module _ (w : Networks) where
  abbrev routes_of : ℕ → List (Bytes × ℕ) → List ((Bytes × ℕ) × ℕ)
  routes_of nic cidrs = map (λ c. (subnet_of w c, nic)) cidrs

  add_routes_lem :
      (nic : ℕ) (cidrs : List (Bytes × ℕ)) (n : Nat)
      → add_routes w nic cidrs n ≡ record n { routes = n.routes ++ routes_of nic cidrs }
  unfolding add_routes add_route
  add_routes_lem nic [] n =
      ap (λ (r : List ((Bytes × ℕ) × ℕ)). record n { routes = r }) (sym (append-nil n.routes))
  add_routes_lem nic (c ∷ cidrs) n =
      add_routes_lem nic cidrs (add_route (subnet_of w c, nic) n)
      ∙ ap (λ (r : List ((Bytes × ℕ) × ℕ)). record n { routes = r })
          (append_assoc n.routes ((subnet_of w c, nic) ∷ []) (routes_of nic cidrs))

  reaches-routes_of :
      (a : Addresses) (nic : ℕ) (cidrs : List (Bytes × ℕ)) (dst : Bytes)
      → reaches a.contains nic (routes_of nic cidrs) dst
        ≡ covers a (map (λ c. subnet_of w c) cidrs) dst
  unfolding reaches covers
  reaches-routes_of a nic [] dst = refl
  reaches-routes_of a nic (c ∷ cidrs) dst = ground (arith, reaches-routes_of a nic cidrs dst)

  -- What the added routes reach.
  reaches-add_routes :
      (a : Addresses) (nic : ℕ) (cidrs : List (Bytes × ℕ)) (n : Nat) (dst : Bytes)
      → reaches a.contains nic (add_routes w nic cidrs n).routes dst
        ≡ (reaches a.contains nic n.routes dst || covers a (map (λ c. subnet_of w c) cidrs) dst)
  reaches-add_routes a nic cidrs n dst = rw (add_routes_lem nic cidrs n) (
      reaches-append a nic n.routes (routes_of nic cidrs) dst
      ∙ ap (λ b. reaches a.contains nic n.routes dst || b) (reaches-routes_of a nic cidrs dst))

  module _ (addable : ℕ × Bytes → Bool) (configures : Text → Bool) (guest_nic : ℕ) (conf : Conf)
      (n : Nat) (s : Stack) where
    attach_switched-routes :
        (creates : Bool) (config : Text)
        → (attach w creates addable configures guest_nic conf switched n s).0 ≡ some config
        → (attach w creates addable configures guest_nic conf switched n s).1
          ≡ add_routes w wg_nic conf.allowed_ips n
    unfolding attach set_mode
    attach_switched-routes creates config h = ground arith

    attach_standalone-failed :
        ((config : Text) → configures config ≡ false)
        → ((attach w true addable configures guest_nic conf standalone n s).0 ≡ none)
          × ((attach w true addable configures guest_nic conf standalone n s).1
              ≡ add_routes w wg_nic conf.allowed_ips (add_routes w guest_nic conf.addresses n))
          × ((attach w true addable configures guest_nic conf standalone n s).2.promiscuous ≡ false)
    unfolding attach set_mode
    attach_standalone-failed refuses = rw (refuses _, attach) (refl, refl, refl)

  -- The NAT with the AllowedIPs given to `SetTunnelSubnets`, as `runInstance` does it.
  abbrev pub routed : Conf → Nat → Nat
  routed conf n = set_tunnel_subnets (map (λ c. subnet_of w c) conf.allowed_ips) n

  attach_switched-local :
      (addable : ℕ × Bytes → Bool) (configures : Text → Bool) (conf : Conf) (n : Nat) (s : Stack)
      (creates : Bool) (config : Text)
      → (attach w creates addable configures 1 conf switched n s).0 ≡ some config
      → (attach w creates addable configures 1 conf switched n s).1.local_addrs ≡ n.local_addrs
  attach_switched-local addable configures conf n s creates config ok =
      ap {A = Nat} (λ m. m.local_addrs)
        (attach_switched-routes addable configures 1 conf n s creates config ok
          ∙ add_routes_lem wg_nic conf.allowed_ips n)

  -- The test of the NAT against the routes to the tunnel's NIC.
  dials_tunnel-reaches :
      (a : Addresses) (taken : List Text → Text → Bool) (resolv_conf : Option Text)
      (gateway nameserver network : Text) (ipv6 creates : Bool) (addable : ℕ × Bytes → Bool)
      (configures : Text → Bool) (conf : Conf) (n : Nat) (s : Stack) (config : Text) (dst : Bytes)
      → Nats.new a taken resolv_conf gateway nameserver network ipv6 ≡ some n
      → (attach w creates addable configures 1 conf switched n s).0 ≡ some config
      → dials_tunnel a (routed conf (attach w creates addable configures 1 conf switched n s).1) dst
        ≡ reaches a.contains wg_nic
            (attach w creates addable configures 1 conf switched n s).1.routes
            dst
  unfolding dials_tunnel set_tunnel_subnets
  dials_tunnel-reaches a taken resolv_conf gateway nameserver network ipv6 creates addable
        configures conf n s config dst built ok =
      let same = attach_switched-routes addable configures 1 conf n s creates config ok in
      let old : reaches a.contains wg_nic n.routes dst ≡ false =
        reaches-other a wg_nic n.routes dst
          (new-AllOut a taken resolv_conf gateway nameserver network ipv6 n built) (omega arith) in
      let all = reaches-add_routes a wg_nic conf.allowed_ips n dst in
      rw same (sym (all ∙ rw old refl))

  -- A tunnel is attached in switch mode to a netstack that `New` built, and the AllowedIPs are given to
  -- `SetTunnelSubnets` as `runInstance` does it. A TCP flow leaves by the tunnel exactly if its
  -- destination is none of the netstack's own addresses, some route to the tunnel's NIC covers it, and
  -- the netstack's dial succeeds; one to an own address goes to the loopback address of the host or is
  -- refused, also where the routes cover it.
  pub attach-dial_tcp :
      (a : Addresses) (d : Dials) (taken : List Text → Text → Bool) (resolv_conf : Option Text)
      (gateway nameserver network : Text) (ipv6 creates : Bool) (addable : ℕ × Bytes → Bool)
      (configures : Text → Bool) (conf : Conf) (n : Nat) (s : Stack) (config : Text) (dst : Bytes)
      (port : ℕ)
      → Nats.new a taken resolv_conf gateway nameserver network ipv6 ≡ some n
      → (attach w creates addable configures 1 conf switched n s).0 ≡ some config
      → ((dial_tcp a d
              (routed conf (attach w creates addable configures 1 conf switched n s).1)
              dst
              port
            ≡ on_tunnel dst port)
          ↔ ((has n.local_addrs (a.show dst) ≡ false)
              × (reaches a.contains wg_nic
                    (attach w creates addable configures 1 conf switched n s).1.routes
                    dst
                  ≡ true)
              × (d.stack_tcp dst port ≡ true)))
        × ((has n.local_addrs (a.show dst) ≡ false)
            ⊎ (dial_tcp a d
                  (routed conf (attach w creates addable configures 1 conf switched n s).1)
                  dst
                  port
                ≡ (if d.host_tcp loopback port then on_host loopback port else refused)))
  unfolding dial_tcp set_tunnel_subnets
  attach-dial_tcp a d taken resolv_conf gateway nameserver network ipv6 creates addable configures
        conf n s config dst port built ok =
      let same = attach_switched-local addable configures conf n s creates config ok in
      let test =
        dials_tunnel-reaches a taken resolv_conf gateway nameserver network ipv6 creates addable
          configures conf n s config dst built ok in
      dial_tcp_lem a d (routed conf (attach w creates addable configures 1 conf switched n s).1) dst
        port n.local_addrs _ same test

  -- Attaching in standalone mode that fails at the device is not undone: the guest's NIC is left without
  -- the promiscuous mode that `New` gave it, and the AllowedIPs stay routed to the NIC of the tunnel that
  -- is not there.
  pub attach_leftovers :
      (a : Addresses) (addable : ℕ × Bytes → Bool) (configures : Text → Bool) (guest_nic : ℕ)
      (conf : Conf) (n : Nat) (s : Stack) (dst : Bytes)
      → ((config : Text) → configures config ≡ false)
      → covers a (map (λ c. subnet_of w c) conf.allowed_ips) dst ≡ true
      → ((attach w true addable configures guest_nic conf standalone n s).0 ≡ none)
        × ((attach w true addable configures guest_nic conf standalone n s).2.promiscuous ≡ false)
        × (reaches a.contains wg_nic
              (attach w true addable configures guest_nic conf standalone n s).1.routes
              dst
            ≡ true)
  attach_leftovers a addable configures guest_nic conf n s dst refuses within =
      let (failed, left, quiet) =
        attach_standalone-failed addable configures guest_nic conf n s refuses in
      let all =
        reaches-add_routes a wg_nic conf.allowed_ips (add_routes w guest_nic conf.addresses n)
          dst in
      (failed, quiet, rw left (ground arith))
