-- ===== src/Hub/Setup.antt =====
-- How `runInstance` of vdeplug-go/main.go puts an instance together: the uplink that the configuration
-- names, the netstack with its addresses, the lease pool, the tunnel and the ping relay, and the two ports.
use uml_kernel_build.Common.{
  ℕ, Bool, true, false, Option, none, some, List, [], ◌∷◌, map, if◌then◌else◌, nat_eq, bytes_eq,
  Bytes, Dict,
}
use uml_kernel_build.Config.Strings.{Text}
use uml_kernel_build.Config.{Config, switch_enabled}
use uml_kernel_build.Wireguard.{Conf}
use uml_kernel_build.Nat as Nats
use uml_kernel_build.Nat.{Addresses, Nat, has, own_addresses, own_addresses6, resolvers}
use uml_kernel_build.Tunnel.{Networks, Stack}
use uml_kernel_build.Tunnel.Start.{start_tunnel}
use uml_kernel_build.Icmp.Relay.Loop.{new_relay}
use uml_kernel_build.Startup.Mac.{vde_mac}
use uml_kernel_build.Uplink.{own_addrs}
use uml_kernel_build.Dhcp.Pool.{Pool}
use uml_kernel_build.Switch.{Switch}
use uml_kernel_build.Hub.{
  Kind, isolated, tap, slirp, uplink_kind, lease_pool, blackhole, tap_device, netstack, Hub,
  ports_of,
}
use uml_kernel_build.Hub.Shutdown.{Running, tapped, natted}
use uml_kernel_build.Hub.Shutdown as Shutdown

-- What the host and the libraries answer: the addresses that the netstack takes, /etc/resolv.conf, the
-- parsers, the echo id of the host's socket, the tap device, the tunnel's file and device.
pub record Machine : Type 0 where
  pub addable : List Text → Text → Bool
  pub resolv_conf : Option Text
  pub parse_start : Text → Option (Option Bytes)
  pub parse_subnet : Text → Option (Option Bytes × Bytes)
  pub echo_id : Option ℕ
  pub opens_tap : Text → Bool
  pub conf_path : Option Text
  pub load_conf : Text → Option Conf
  pub creates : Bool
  pub tunnel_addable : ℕ × Bytes → Bool
  pub configures : Text → Bool

-- `own` are the addresses of `ownAddrs`, and `config` is what the tunnel's device was given.
pub record Netstack : Type 0 where
  pub nat : Nat
  pub stack : Stack
  pub own : Bytes → Bool
  pub config : Option Text

pub record Instance : Type 0 where
  pub running : Running
  pub hub : Hub
  pub netstack : Option Netstack

abbrev pub guest_nic : ℕ
guest_nic = 1

-- The guest's NIC is promiscuous when `nat.New` returns.
abbrev pub new_stack : Stack
new_stack = record { own = []; promiscuous = true; forwarding4 = false; forwarding6 = false }

unfoldable pub is_some {ℓ} : {A : Type ℓ} → Option A → Bool
is_some none = false
is_some (some _) = true

module _ (a : Addresses) (w : Networks) (m : Machine) where
  -- The tunnel's configuration is read only where the uplink is wireguard.
  unfoldable pub tunnelled : Bool → Config → Nat → Option (Option Text × Nat × Stack)
  unfolding start_tunnel switch_enabled
  tunnelled is_wg cfg n =
      let started =
        start_tunnel w (switch_enabled cfg) m.creates m.tunnel_addable m.configures guest_nic
          m.conf_path m.load_conf n new_stack in
      if is_wg then started else some (none, n, new_stack)

  unfoldable pub nat_instance : Config → Switch → Option Pool → Option Text × Nat × Stack → Instance
  unfolding own_addrs new_relay ports_of is_some
  nat_instance cfg sw pool (config, n, s) = record {
    running = natted (is_some config) (is_some pool);
    hub = record {
      switch = ports_of sw;
      sink = netstack (record { pool = pool; relay = new_relay vde_mac m.echo_id });
    };
    netstack = some (record {
      nat = n;
      stack = s;
      own = own_addrs (map a.parse_ip4 (cfg.gateway ∷ cfg.nameserver ∷ []));
      config = config;
    });
  }

  -- The netstack's uplink; `none` is a fatal error or a panic.
  unfoldable pub start_nat : Bool → Config → Dict Bytes Bytes → Switch → Option Instance
  unfolding tunnelled nat_instance lease_pool Nats.new
  start_nat is_wg cfg seed sw =
      elim (Nats.new a m.addable m.resolv_conf cfg.gateway cfg.nameserver cfg.network cfg.ipv6) [
        | none ↦ none
        | some n ↦
            elim (lease_pool (m.parse_subnet cfg.network) (m.parse_start cfg.dhcp_start) seed) [
              | none ↦ none
              | some pool ↦ elim (tunnelled is_wg cfg n) [
                | none ↦ none
                | some built ↦ some (nat_instance cfg sw pool built)
              ]
            ]
      ]

  -- `seed` is the lease table that a promoted peer inherits.
  unfoldable pub start_uplink : Option Kind → Config → Dict Bytes Bytes → Switch → Option Instance
  unfolding start_nat ports_of
  start_uplink none cfg seed sw = none
  start_uplink (some isolated) cfg seed sw = some (record {
    running = Shutdown.isolated;
    hub = record { switch = ports_of sw; sink = blackhole };
    netstack = none;
  })
  start_uplink (some (tap name)) cfg seed sw =
      if m.opens_tap name
      then some (record {
        running = tapped;
        hub = record { switch = ports_of sw; sink = tap_device };
        netstack = none;
      })
      else none
  start_uplink (some (slirp is_wg)) cfg seed sw = start_nat is_wg cfg seed sw

  unfoldable pub start_instance : Config → Dict Bytes Bytes → Switch → Option Instance
  unfolding start_uplink uplink_kind
  start_instance cfg seed sw = start_uplink (uplink_kind cfg.uplink) cfg seed sw
