-- ===== src/Tests/Networks.antt =====
-- The netstack's flows and the tunnel at concrete inputs.
use uml_kernel_build.Common.{
  ℕ, ◌≡◌, ◌↔◌, ◌⊎◌, refl, true, false, Option, none, some, List, [], ◌∷◌, map, arith, if◌then◌else◌,
  nat_eq, bytes_eq, length, take, codes, bytes_beq,
}
use uml_kernel_build.Common.{ℤ, pos}
use uml_kernel_build.Config.Strings.{
  Text, is_space, split, split_at, digits, parse_uint16, cut_prefix,
}
use uml_kernel_build.Wireguard.{Conf}
use uml_kernel_build.Nat as Nats
use uml_kernel_build.Nat.{
  Addresses, Dials, Nat, Socket, loopback, on_host, on_tunnel, has, fields_from, nameserver_of,
  nameservers, resolvers, add_route, set_tunnel_subnets, covers, dials_tunnel, dial_tcp, dial_udp,
  own_addresses, own_addresses6,
}
use uml_kernel_build.Nat.Flows
use uml_kernel_build.Tunnel.{
  switched, wg_nic, Networks, Stack, hex, decimal, uapi_line, allowed_lines, device_config,
  subnet_of, proto_addr, has_family, is_ip4, add_addresses, add_routes, set_mode, attach,
}
use uml_kernel_build.Tunnel.Handshake.{
  completed, no_handshake, handshake_fields, handshake_time, watch_from, watch_handshake,
}
use uml_kernel_build.Tunnel.Routes
use uml_kernel_build.Tunnel.Routes.{reaches}
use uml_kernel_build.Tunnel.Uapi

networks : Unit {0}
unfolding is_space split split_at digits parse_uint16 cut_prefix has fields_from nameserver_of
    nameservers resolvers add_route set_tunnel_subnets covers dials_tunnel dial_tcp dial_udp
    own_addresses own_addresses6 Nats.new hex decimal uapi_line allowed_lines device_config
    subnet_of proto_addr has_family is_ip4 add_addresses add_routes set_mode attach handshake_fields
    handshake_time watch_from watch_handshake reaches
networks = tt

-- Addresses whose texts are their bytes; a network covers what starts like it, and an empty one all.
abbrev pub plain : Addresses
plain = record {
  show = λ b. b;
  parse = λ t. t;
  parse_ip4 = λ t. some t;
  parse_network = λ t. some (t, 8);
  contains = λ net b. bytes_beq net.0 (take (length net.0) b);
}

abbrev open_host : Dials
open_host = record {
  host_tcp = λ t p. true;
  host_udp = λ t p. true;
  stack_tcp = λ b p. true;
  stack_udp = λ b p. true;
}

abbrev pair : Nat
pair = record {
  resolvers = codes "9.9.9.9" ∷ [];
  local_addrs = codes "d" ∷ codes "g" ∷ [];
  dns_addrs = codes "d" ∷ [];
  tunnel_subnets = [];
  routes = ((codes "n", 8), 1) ∷ [];
}

pair_built :
    Nats.new plain
      (λ taken t. true)
      (some (codes "x y z\nnameserver 9.9.9.9\n"))
      (codes "g")
      (codes "d")
      (codes "n")
      false
    ≡ some pair
unfolding networks
pair_built = refl

to_tunnel :
    dial_udp plain open_host (set_tunnel_subnets ((codes "t", 8) ∷ []) pair) (codes "t1") 80
    ≡ on_tunnel (codes "t1") 80
unfolding networks
to_tunnel = refl

abbrev everything : Nat
everything = record pair { tunnel_subnets = ([], 0) ∷ [] }

abbrev pub nets : Networks
nets = record {
  to4 = λ b. some b;
  to16 = λ b. some b;
  masked = λ b bits. (b, bits);
  show_network = λ n. n.0;
  resolve = λ t. none;
}

abbrev conf : Conf
conf = record {
  private_key = 0xab ∷ 0 ∷ [];
  preshared_key = [];
  addresses = (10 ∷ 9 ∷ 0 ∷ 2 ∷ [], 32) ∷ [];
  dns = [];
  peer_key = 0x10 ∷ 0xff ∷ [];
  allowed_ips = (codes "9.9/", 24) ∷ [];
  endpoint = codes "h:51820";
  keepalive = 25;
  mtu = pos 0;
}

abbrev fresh : Stack
fresh = record { own = []; promiscuous = true; forwarding4 = false; forwarding6 = false }

abbrev config : Text
config =
    codes
      "private_key=ab00\npublic_key=10ff\nendpoint=h:51820\nallowed_ip=9.9/\npersistent_keepalive_interval=25\n"

rendered : device_config nets.show_network conf conf.endpoint ≡ config
unfolding networks
rendered = refl

-- The netstack with the tunnel.
abbrev under : Nat
under = (attach nets true (λ a. true) (λ t. true) 1 conf switched pair fresh).1

attached : (attach nets true (λ a. true) (λ t. true) 1 conf switched pair fresh).0 ≡ some config
unfolding networks
attached = refl

-- The destination is no own address, and the tunnel covers it.
attach-dial_tcp_example :
    ((dial_tcp plain open_host (Routes.routed nets conf under) (codes "9.9/7") 80
        ≡ on_tunnel (codes "9.9/7") 80)
      ↔ ((has pair.local_addrs (codes "9.9/7") ≡ false)
          × (reaches plain.contains wg_nic under.routes (codes "9.9/7") ≡ true)
          × (true ≡ true)))
    × ((has pair.local_addrs (codes "9.9/7") ≡ false)
        ⊎ (dial_tcp plain open_host (Routes.routed nets conf under) (codes "9.9/7") 80
            ≡ on_host loopback 80))
attach-dial_tcp_example =
    Routes.attach-dial_tcp nets plain open_host (λ taken t. true)
      (some (codes "x y z\nnameserver 9.9.9.9\n")) (codes "g") (codes "d") (codes "n") false true
      (λ a. true) (λ t. true) conf pair fresh config (codes "9.9/7") 80 pair_built attached

by_tunnel :
    dial_tcp plain open_host (Routes.routed nets conf under) (codes "9.9/7") 80
    ≡ on_tunnel (codes "9.9/7") 80
unfolding networks
by_tunnel = refl

within : covers plain (map (λ c. subnet_of nets c) conf.allowed_ips) (codes "9.9/7") ≡ true
unfolding networks
within = refl

device_config-fields_example :
    (Uapi.fields (device_config nets.show_network conf conf.endpoint)
      ≡ Uapi.expected nets.show_network conf conf.endpoint)
    × (Uapi.unhex (hex conf.private_key) ≡ conf.private_key)
    × (Uapi.unhex (hex conf.peer_key) ≡ conf.peer_key)
    × (Uapi.unhex (hex conf.preshared_key) ≡ conf.preshared_key)
    × (parse_uint16 (decimal 5 conf.keepalive) ≡ some conf.keepalive)
device_config-fields_example =
    Uapi.device_config-fields nets.show_network conf conf.endpoint (ground arith) (ground arith)
      (ground arith) (ground arith) tt (omega arith)

abbrev seconds : Text → ℤ
seconds t = if bytes_beq t (codes "0") then pos 0 else pos 7

abbrev ticks : List (ℕ × Option Text)
ticks =
    (16_000_000_000, some (codes "last_handshake_time_sec=0\n"))
    ∷ (18_000_000_000, some (codes "last_handshake_time_sec=7\nlast_handshake_time_nsec=5\n"))
    ∷ []

watched : watch_handshake seconds (λ hs. false) 0 ticks ≡ no_handshake ∷ completed ∷ []
unfolding networks
watched = refl
