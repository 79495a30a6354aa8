-- ===== src/Hub/Owned.antt =====
-- The two sets of own addresses that an instance has: those of the uplink's ARP filter (`ownAddrs` of
-- vdeplug-go/main.go) and those of the netstack (`localAddrs` of internal/nat/nat.go).
use uml_kernel_build.Common.{
  ◌≤◌, ◌≡◌, inl, inr, refl, sym, ap, ◌∙◌, Bool, true, false, ◌||◌, Option, none, some, List, [],
  ◌∷◌, map, arith, Bool-cases, Option-cases, nat_eq, bytes_eq, length, drop, Bytes, codes,
  bytes_beq, bytes_beq-eq, bytes_beq_self, slice, copy_n, copy_n_lem, read16, Dict,
}
use uml_kernel_build.Config.Strings.{Text}
use uml_kernel_build.Config.{Config, switch_enabled}
use uml_kernel_build.Wireguard.{Conf}
use uml_kernel_build.Nat as Nats
use uml_kernel_build.Nat.{
  Addresses, Nat, has, own_addresses, own_addresses6, resolvers, set_tunnel_subnets,
}
use uml_kernel_build.Tunnel.{Mode, standalone, switched, Networks, Stack, attach}
use uml_kernel_build.Tunnel.Start.{
  mode_of, use_tunnel, with_conf, start_tunnel, OnlyRoutes, attach-OnlyRoutes,
}
use uml_kernel_build.Uplink.{own_addrs, arp_for_own_addr}
use uml_kernel_build.Switch.{Switch}
use uml_kernel_build.Hub.{Kind, isolated, tap, slirp, uplink_kind, lease_pool}
use uml_kernel_build.Hub.Setup.{
  Machine, Netstack, Instance, guest_nic, new_stack, tunnelled, nat_instance, start_nat,
  start_uplink, start_instance,
}

-- The text is the one that its address is shown as, and the address has 4 bytes.
unfoldable pub Canonical : Addresses → Text → Type 0
Canonical a t = (ip : Bytes) → a.parse_ip4 t ≡ some ip → (a.show ip ≡ t) × (length ip ≡ 4)

or_swap : (x y : Bool) → (x || (y || false)) ≡ (y || (x || false))
or_swap false false = refl
or_swap false true = refl
or_swap true false = refl
or_swap true true = refl

module _ (a : Addresses) where
  -- The addresses of a netstack that `New` built, but for the two of IPv6.
  new-has :
      (addable : List Text → Text → Bool) (resolv_conf : Option Text)
      (gateway nameserver network : Text) (ipv6 : Bool) (n : Nat)
      → Nats.new a addable resolv_conf gateway nameserver network ipv6 ≡ some n
      → (g s : Bytes) × (a.parse_ip4 gateway ≡ some g)
        × (a.parse_ip4 nameserver ≡ some s)
        × ((t : Text)
            → bytes_beq (codes "fec0::2") t ≡ false
            → bytes_beq (codes "fec0::3") t ≡ false
            → has n.local_addrs t ≡ (bytes_beq nameserver t || (bytes_beq gateway t || false)))
  unfolding Nats.new own_addresses own_addresses6 has
  new-has addable resolv_conf gateway nameserver network ipv6 n h =
      elim (Option-cases (a.parse_ip4 gateway)) [
        | inl bad ↦ absurd (ground arith)
        | inr (g, eg) ↦ elim (Option-cases (a.parse_ip4 nameserver)) [
          | inl bad ↦ absurd (ground arith)
          | inr (s, es) ↦ elim (Option-cases (a.parse_network network)) [
            | inl bad ↦ absurd (ground arith)
            | inr (net, en) ↦ (g, s, eg, es, λ t two three. ground arith)
          ]
        ]
      ]

  module _ (w : Networks) (m : Machine) where
    use_tunnel-local :
        (mode : Mode) (conf : Conf) (r : Option Text × Nat × Stack)
        → (use_tunnel w mode conf r).1.local_addrs ≡ r.1.local_addrs
    unfolding use_tunnel set_tunnel_subnets
    use_tunnel-local mode conf (none, n, s) = refl
    use_tunnel-local standalone conf (some config, n, s) = refl
    use_tunnel-local switched conf (some config, n, s) = refl

    with_conf-local :
        (on : Bool) (conf : Option Conf) (n : Nat) (s : Stack) (r : Option Text × Nat × Stack)
        → with_conf w on m.creates m.tunnel_addable m.configures guest_nic conf n s ≡ some r
        → r.1.local_addrs ≡ n.local_addrs
    unfolding with_conf OnlyRoutes
    with_conf-local on none n s r h = cc
    with_conf-local on (some conf) n s r h =
        let (routes, e) =
          attach-OnlyRoutes w m.creates m.tunnel_addable m.configures guest_nic conf (mode_of on) n
            s in
        let kept =
          use_tunnel-local (mode_of on) conf
            (attach w m.creates m.tunnel_addable m.configures guest_nic conf (mode_of on) n s) in
        let same : use_tunnel w (mode_of on) conf
              (attach w m.creates m.tunnel_addable m.configures guest_nic conf (mode_of on) n s)
            ≡ r =
          ground arith in
        rw (← same) (kept ∙ ap {A = Nat} (λ x. x.local_addrs) e)

    -- A tunnel leaves the netstack its own addresses.
    tunnelled-local :
        (is_wg : Bool) (cfg : Config) (n : Nat) (r : Option Text × Nat × Stack)
        → tunnelled a w m is_wg cfg n ≡ some r
        → r.1.local_addrs ≡ n.local_addrs
    unfolding tunnelled start_tunnel
    tunnelled-local false cfg n r h = ground arith
    tunnelled-local true cfg n r h = elim (Option-cases m.conf_path) [
      | inl bad ↦ absurd (ground arith)
      | inr (path, e) ↦
          with_conf-local (switch_enabled cfg) (m.load_conf path) n new_stack r
            (rw (e, tunnelled, start_tunnel) at h)
    ]

    -- The netstack of an instance, and where its two sets of addresses come from.
    start_nat-netstack :
        (is_wg : Bool) (cfg : Config) (seed : Dict Bytes Bytes) (sw : Switch) (i : Instance)
        (ns : Netstack)
        → start_nat a w m is_wg cfg seed sw ≡ some i
        → i.netstack ≡ some ns
        → (n : Nat) × (Nats.new a m.addable m.resolv_conf cfg.gateway cfg.nameserver cfg.network
              cfg.ipv6
            ≡ some n)
          × (ns.nat.local_addrs ≡ n.local_addrs)
          × (ns.own ≡ own_addrs (map a.parse_ip4 (cfg.gateway ∷ cfg.nameserver ∷ [])))
    unfolding start_nat nat_instance
    start_nat-netstack is_wg cfg seed sw i ns h has_ns =
        elim (Option-cases
          (Nats.new a m.addable m.resolv_conf cfg.gateway cfg.nameserver cfg.network cfg.ipv6)) [
            | inl bad ↦ absurd (ground arith)
            | inr (n, en) ↦
                elim (Option-cases
                  (lease_pool (m.parse_subnet cfg.network) (m.parse_start cfg.dhcp_start) seed)) [
                    | inl bad ↦ absurd (ground arith)
                    | inr (pool, ep) ↦ elim (Option-cases (tunnelled a w m is_wg cfg n)) [
                      | inl bad ↦ absurd (ground arith)
                      | inr ((config, n', s'), er) ↦
                          let built : some (nat_instance a w m cfg sw pool (config, n', s'))
                              ≡ some i =
                            rw (en, ep, er, start_nat) at h in
                          let same : nat_instance a w m cfg sw pool (config, n', s') ≡ i =
                            cc built in
                          let got : some (record {
                            nat = n';
                            stack = s';
                            own = own_addrs (map a.parse_ip4 (cfg.gateway ∷ cfg.nameserver ∷ []));
                            config = config;
                          })
                              ≡ some ns =
                            ap {A = Instance} (λ x. x.netstack) same ∙ has_ns in
                          let one : record {
                            nat = n';
                            stack = s';
                            own = own_addrs (map a.parse_ip4 (cfg.gateway ∷ cfg.nameserver ∷ []));
                            config = config;
                          }
                              ≡ ns =
                            cc got in
                          (
                            n,
                            en,
                            ap {A = Netstack} (λ x. x.nat.local_addrs) (sym one)
                                ∙ tunnelled-local is_wg cfg n (config, n', s') er,
                            ap {A = Netstack} (λ x. x.own) (sym one),
                          )
                    ]
                  ]
          ]

    -- An address is shown as a canonical text exactly if it is that text's.
    beq-shown :
        (t : Text) (ip dst : Bytes)
        → Canonical a t
        → a.parse_ip4 t ≡ some ip
        → (a.show ip ≡ a.show dst → ip ≡ dst)
        → bytes_beq t (a.show dst) ≡ bytes_beq (copy_n 4 ip) dst
    unfolding Canonical
    beq-shown t ip dst canonical parsed distinct =
        let (shown, four) = canonical ip parsed in
        let alike : bytes_beq t (a.show dst) ≡ bytes_beq ip dst =
          elim (Bool-cases (bytes_beq t (a.show dst))) [
            | inl eq ↦
                let same : ip ≡ dst = distinct (shown ∙ bytes_beq-eq t (a.show dst) eq) in
                eq ∙ sym (rw same (bytes_beq_self dst))
            | inr differs ↦ elim (Bool-cases (bytes_beq ip dst)) [
              | inr other ↦ differs ∙ sym other
              | inl eq ↦
                  let same : t ≡ a.show dst = sym shown ∙ ap a.show (bytes_beq-eq ip dst eq) in
                  let shown_so : bytes_beq t (a.show dst) ≡ true =
                    rw same (bytes_beq_self (a.show dst)) in
                  absurd (cc (differs, shown_so))
            ]
          ] in
        alike ∙ ap (λ x. bytes_beq x dst) (sym (copy_n_lem 4 ip four))

    own_addrs_two :
        (gateway nameserver : Text) (g s dst : Bytes)
        → a.parse_ip4 gateway ≡ some g
        → a.parse_ip4 nameserver ≡ some s
        → own_addrs (map a.parse_ip4 (gateway ∷ nameserver ∷ [])) dst
          ≡ (bytes_beq (copy_n 4 g) dst || (bytes_beq (copy_n 4 s) dst || false))
    unfolding own_addrs
    own_addrs_two gateway nameserver g s dst eg es = rw (eg, es, own_addrs) refl

    -- A frame that is an ARP request for the address is given to the netstack as `own` says.
    arp_for_own_addr_request :
        (own : Bytes → Bool) (frame : Bytes)
        → 42 ≤ length frame
        → read16 (slice 12 14 frame) ≡ 0x0806
        → read16 (slice 6 8 (drop 14 frame)) ≡ 1
        → arp_for_own_addr own frame ≡ own (copy_n 4 (slice 24 28 (drop 14 frame)))
    unfolding arp_for_own_addr
    arp_for_own_addr_request own frame long kind op = ground arith

    -- Only the netstack's uplink has a netstack.
    start_uplink-nat :
        (k : Option Kind) (cfg : Config) (seed : Dict Bytes Bytes) (sw : Switch) (i : Instance)
        (ns : Netstack)
        → start_uplink a w m k cfg seed sw ≡ some i
        → i.netstack ≡ some ns
        → (is_wg : Bool) × (start_nat a w m is_wg cfg seed sw ≡ some i)
    unfolding start_uplink
    start_uplink-nat none cfg seed sw i ns h has_ns = absurd (cc h)
    start_uplink-nat (some isolated) cfg seed sw i ns h has_ns = absurd (ground arith)
    start_uplink-nat (some (tap name)) cfg seed sw i ns h has_ns = absurd (ground arith)
    start_uplink-nat (some (slirp is_wg)) cfg seed sw i ns h has_ns = (is_wg, h)

    -- An instance that has a netstack, with or without a tunnel, and whose gateway and nameserver are
    -- written as their addresses are shown: an ARP request for an address, which no other shares its text
    -- with and which is not shown as fec0::2 or fec0::3, reaches the netstack exactly if the netstack
    -- takes the flows to that address for its own.
    pub start_instance_owns :
        (cfg : Config) (seed : Dict Bytes Bytes) (sw : Switch) (i : Instance) (ns : Netstack)
        (frame dst : Bytes)
        → start_instance a w m cfg seed sw ≡ some i
        → i.netstack ≡ some ns
        → Canonical a cfg.gateway
        → Canonical a cfg.nameserver
        → 42 ≤ length frame
        → read16 (slice 12 14 frame) ≡ 0x0806
        → read16 (slice 6 8 (drop 14 frame)) ≡ 1
        → copy_n 4 (slice 24 28 (drop 14 frame)) ≡ dst
        → ((ip : Bytes) → a.show ip ≡ a.show dst → ip ≡ dst)
        → bytes_beq (codes "fec0::2") (a.show dst) ≡ false
        → bytes_beq (codes "fec0::3") (a.show dst) ≡ false
        → arp_for_own_addr ns.own frame ≡ has ns.nat.local_addrs (a.show dst)
    unfolding start_instance
    start_instance_owns cfg seed sw i ns frame dst h has_ns gw_text ns_text long kind op at distinct
          two three =
        let (is_wg, started) =
          start_uplink-nat (uplink_kind cfg.uplink) cfg seed sw i ns h has_ns in
        let (n, made, locals, owns) = start_nat-netstack is_wg cfg seed sw i ns started has_ns in
        let (g, s, eg, es, both) =
          new-has m.addable m.resolv_conf cfg.gateway cfg.nameserver cfg.network cfg.ipv6 n made in
        let asked : arp_for_own_addr ns.own frame ≡ ns.own dst =
          arp_for_own_addr_request ns.own frame long kind op ∙ ap ns.own at in
        let filter =
          ap (λ (f : Bytes → Bool). f dst) owns
          ∙ own_addrs_two cfg.gateway cfg.nameserver g s dst eg es in
        let stack = ap (λ l. has l (a.show dst)) locals ∙ both (a.show dst) two three in
        let one = beq-shown cfg.gateway g dst gw_text eg (distinct g) in
        let other = beq-shown cfg.nameserver s dst ns_text es (distinct s) in
        let alike : (bytes_beq (copy_n 4 g) dst || (bytes_beq (copy_n 4 s) dst || false)) ≡ (
            bytes_beq cfg.nameserver (a.show dst)
            || (bytes_beq cfg.gateway (a.show dst) || false)) =
          cc (or_swap (bytes_beq (copy_n 4 g) dst) (bytes_beq (copy_n 4 s) dst), one, other) in
        asked ∙ (filter ∙ (alike ∙ sym stack))
