-- ===== src/Nat.antt =====
-- vdeplug-go/internal/nat/nat.go: where the guest's TCP and UDP flows go, the addresses and routes of
-- the netstack, and the host's resolvers.
pub mod Flows
pub mod Relay
pub mod Setup
pub mod Splice
use uml_kernel_build.Common.{
  ◌||◌, ℕ, Bool, false, ◌&&◌, Option, none, some, List, [], ◌∷◌, ◌++◌, ◌==◌, if◌then◌else◌, nat_eq,
  bytes_eq, length, Bytes, codes, bytes_beq,
}
use uml_kernel_build.Config.Strings.{Text, is_space, split}

-- The packages net and tcpip: `show` is `Address.String`, `parse` is `net.ParseIP` in the form that
-- `dialUDP` gives an address (4 bytes where it has one), `contains` is `Subnet.Contains` for a network
-- and its prefix length, and `parse_network` is `net.ParseCIDR` with `To4`.
pub record Addresses : Type 0 where
  pub show : Bytes → Text
  pub parse : Text → Bytes
  pub parse_ip4 : Text → Option Bytes
  pub parse_network : Text → Option (Bytes × ℕ)
  pub contains : Bytes × ℕ → Bytes → Bool

-- Which dials succeed: the host's, by protocol, and the netstack's.
pub record Dials : Type 0 where
  pub host_tcp : Text → ℕ → Bool
  pub host_udp : Text → ℕ → Bool
  pub stack_tcp : Bytes → ℕ → Bool
  pub stack_udp : Bytes → ℕ → Bool

pub record Nat : Type 0 where
  pub resolvers : List Text
  pub local_addrs : List Text
  pub dns_addrs : List Text
  pub tunnel_subnets : List (Bytes × ℕ)
  pub routes : List ((Bytes × ℕ) × ℕ)

-- The socket that a flow gets: one of the host, one of the netstack that leaves by the tunnel, or none.
pub data Socket : Type 0 where
  refused : Socket
  on_host : (server : Text) (port : ℕ) → Socket
  on_tunnel : (server : Bytes) (port : ℕ) → Socket

unfoldable pub has : List Text → Text → Bool
has [] a = false
has (b ∷ bs) a = bytes_beq b a || has bs a

abbrev pub loopback : Text
loopback = codes "127.0.0.1"

-- `strings.Fields`: `word` is the field being read.
unfoldable pub fields_from : Text → Text → List Text
fields_from word [] = if length word == 0 then [] else word ∷ []
fields_from word (c ∷ s) =
    let next = fields_from [] s in
    let more = fields_from (word ++ (c ∷ [])) s in
    if is_space c then (if length word == 0 then next else word ∷ next) else more

unfoldable pub nameserver_of : List Text → Option Text
nameserver_of (k ∷ v ∷ []) = if bytes_beq k (codes "nameserver") then some v else none
nameserver_of _ = none

unfoldable pub nameservers : List Text → List Text
unfolding fields_from nameserver_of
nameservers [] = []
nameservers (line ∷ lines) = elim (nameserver_of (fields_from [] line)) [
  | none ↦ nameservers lines
  | some server ↦ server ∷ nameservers lines
]

-- The argument is the text of /etc/resolv.conf, none if it cannot be read.
unfoldable pub resolvers : Option Text → List Text
unfolding nameservers
resolvers file = elim file [ none ↦ [] | some text ↦ nameservers (split 10 text) ]

unfoldable pub add_route : (Bytes × ℕ) × ℕ → Nat → Nat
add_route r n = record n { routes = n.routes ++ (r ∷ []) }

unfoldable pub set_tunnel_subnets : List (Bytes × ℕ) → Nat → Nat
set_tunnel_subnets subs n = record n { tunnel_subnets = subs }

module _ (a : Addresses) where
  unfoldable pub covers : List (Bytes × ℕ) → Bytes → Bool
  covers [] dst = false
  covers (sub ∷ subs) dst = a.contains sub dst || covers subs dst

  unfoldable pub dials_tunnel : Nat → Bytes → Bool
  unfolding covers
  dials_tunnel n dst = covers n.tunnel_subnets dst

  module _ (d : Dials) where
    -- `tcpHandler` up to the dial; a flow that gets no socket is reset.
    unfoldable pub dial_tcp : Nat → Bytes → ℕ → Socket
    unfolding has dials_tunnel
    dial_tcp n dst port =
        if has n.local_addrs (a.show dst)
        then (if d.host_tcp loopback port then on_host loopback port else refused)
        else if dials_tunnel n dst
        then (if d.stack_tcp dst port then on_tunnel dst port else refused)
        else if d.host_tcp (a.show dst) port
        then on_host (a.show dst) port
        else refused

    unfoldable pub first_resolver : List Text → Socket
    first_resolver [] = refused
    first_resolver (server ∷ servers) =
        let rest = first_resolver servers in
        if d.host_udp server 53 then on_host server 53 else rest

    unfoldable pub dial_udp : Nat → Text → ℕ → Socket
    unfolding has dials_tunnel first_resolver
    dial_udp n dst_ip dst_port =
        let to : Text = if has n.local_addrs dst_ip then loopback else dst_ip in
        let dst = a.parse to in
        if (dst_port == 53) && has n.dns_addrs dst_ip
        then first_resolver n.resolvers
        else if dials_tunnel n dst
        then (if d.stack_udp dst dst_port then on_tunnel dst dst_port else refused)
        else if d.host_udp to dst_port
        then on_host to dst_port
        else refused

  -- `addable` says whether the netstack takes an address that is added to the ones before.
  unfoldable pub own_addresses : (List Text → Text → Bool) → Text → List Text → Nat → Option Nat
  own_addresses addable nameserver [] n = some n
  own_addresses addable nameserver (addr ∷ addrs) n = elim (a.parse_ip4 addr) [
    | none ↦ none
    | some _ ↦
        let rest = own_addresses addable nameserver addrs (record n {
          local_addrs = addr ∷ n.local_addrs;
          dns_addrs = if bytes_beq addr nameserver then addr ∷ n.dns_addrs else n.dns_addrs;
        }) in
        if addable n.local_addrs addr then rest else none
  ]

  -- The site-local addresses, fec0::2 and fec0::3, and the route to fec0::/64.
  unfoldable pub own_addresses6 : (List Text → Text → Bool) → Nat → Option Nat
  own_addresses6 addable n =
      let n1 : Nat = record n { local_addrs = codes "fec0::2" ∷ n.local_addrs } in
      let n2 : Nat = record n1 {
        local_addrs = codes "fec0::3" ∷ n1.local_addrs;
        dns_addrs = codes "fec0::3" ∷ n1.dns_addrs;
        routes = n1.routes ++ (((a.parse (codes "fec0::"), 64), 1) ∷ []);
      } in
      if addable n.local_addrs (codes "fec0::2") && addable n1.local_addrs (codes "fec0::3")
      then some n2
      else none

  -- `New`; the route of the network follows the addresses, and `none` is an error.
  unfoldable pub new :
      (List Text → Text → Bool) → Option Text → Text → Text → Text → Bool → Option Nat
  unfolding resolvers own_addresses own_addresses6
  new addable resolv_conf gateway nameserver network ipv6 =
      let empty : Nat = record {
        resolvers = resolvers resolv_conf;
        local_addrs = [];
        dns_addrs = [];
        tunnel_subnets = [];
        routes = [];
      } in
      elim (own_addresses addable nameserver (gateway ∷ nameserver ∷ []) empty) [
        | none ↦ none
        | some n ↦ elim (a.parse_network network) [
          | none ↦ none
          | some net ↦
              let n4 : Nat = record n { routes = (net, 1) ∷ [] } in
              if ipv6 then own_addresses6 addable n4 else some n4
        ]
      ]
