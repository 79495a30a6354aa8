-- ===== src/Tests/Setups.antt =====
-- An instance that is put together, at a concrete configuration.
use uml_kernel_build.Common.{
  ◌≡◌, refl, sym, true, false, none, some, [], ◌∷◌, ◌++◌, arith, nat_eq, bytes_eq, length,
  replicate, Bytes, codes,
}
use uml_kernel_build.Config.{Config, defaults}
use uml_kernel_build.Config.Strings.{cut_prefix}
use uml_kernel_build.Nat as Nats
use uml_kernel_build.Nat.{Nat, has, own_addresses, own_addresses6, resolvers, Addresses}
use uml_kernel_build.Icmp.Relay.Loop.{new_relay}
use uml_kernel_build.Uplink.{own_addrs, arp_for_own_addr}
use uml_kernel_build.Switch as Switches
use uml_kernel_build.Switch.{add_port}
use uml_kernel_build.Hub.{uplink_kind, tap_name, lease_pool, ports_of, netstack}
use uml_kernel_build.Hub.Shutdown.{natted}
use uml_kernel_build.Startup.Mac.{vde_mac}
use uml_kernel_build.Hub.Setup.{
  Machine, Netstack, Instance, new_stack, is_some, tunnelled, nat_instance, start_nat, start_uplink,
  start_instance,
}
use uml_kernel_build.Hub.Owned
use uml_kernel_build.Hub.Owned.{Canonical}
use uml_kernel_build.Tests.Networks.{plain, nets}

abbrev machine : Machine
machine = record {
  addable = λ own addr. true;
  resolv_conf = none;
  parse_start = λ t. none;
  parse_subnet = λ t. none;
  echo_id = none;
  opens_tap = λ t. true;
  conf_path = none;
  load_conf = λ t. none;
  creates = true;
  tunnel_addable = λ p. true;
  configures = λ t. true;
}

-- In these tests the text of an address is its bytes.
abbrev cfg : Config
cfg = record defaults { gateway = 10 ∷ 0 ∷ 2 ∷ 2 ∷ []; nameserver = 10 ∷ 0 ∷ 2 ∷ 3 ∷ [] }

abbrev stack_of : Netstack
stack_of = record {
  nat = record {
    resolvers = [];
    local_addrs = (10 ∷ 0 ∷ 2 ∷ 3 ∷ []) ∷ (10 ∷ 0 ∷ 2 ∷ 2 ∷ []) ∷ [];
    dns_addrs = (10 ∷ 0 ∷ 2 ∷ 3 ∷ []) ∷ [];
    tunnel_subnets = [];
    routes = ((codes "10.0.2.0/24", 8), 1) ∷ [];
  };
  stack = new_stack;
  own = own_addrs (some (10 ∷ 0 ∷ 2 ∷ 2 ∷ []) ∷ some (10 ∷ 0 ∷ 2 ∷ 3 ∷ []) ∷ []);
  config = none;
}

abbrev instance_of : Instance
instance_of = record {
  running = natted false false;
  hub = record {
    switch = ports_of Switches.new;
    sink = netstack (record { pool = none; relay = new_relay vde_mac none });
  };
  netstack = some stack_of;
}

-- An ARP request for the gateway.
abbrev asks_gateway : Bytes
asks_gateway =
    replicate 12 0
    ++ (8 ∷ 6 ∷ (replicate 6 0 ++ (0 ∷ 1 ∷ (replicate 16 0 ++ (10 ∷ 0 ∷ 2 ∷ 2 ∷ [])))))

started : start_instance plain nets machine cfg [] Switches.new ≡ some instance_of
unfolding start_instance start_uplink start_nat tunnelled nat_instance uplink_kind tap_name
    cut_prefix lease_pool Nats.new own_addresses has resolvers is_some defaults
started = refl

-- A text of 4 bytes is canonical.
canonical : (t : Bytes) → length t ≡ 4 → Canonical plain t
unfolding Canonical
canonical t four ip e = let same : t ≡ ip = cc e in (sym same, rw (← same) four)

start_instance_owns_example :
    arp_for_own_addr stack_of.own asks_gateway ≡ has stack_of.nat.local_addrs (10 ∷ 0 ∷ 2 ∷ 2 ∷ [])
unfolding defaults
start_instance_owns_example =
    Owned.start_instance_owns plain nets machine cfg [] Switches.new instance_of stack_of
      asks_gateway (10 ∷ 0 ∷ 2 ∷ 2 ∷ []) started refl (canonical _ refl) (canonical _ refl)
      (omega arith) refl refl refl (λ ip e. e) refl refl

-- It reaches the netstack.
reaches_it : arp_for_own_addr stack_of.own asks_gateway ≡ true
unfolding own_addrs arp_for_own_addr
reaches_it = refl
