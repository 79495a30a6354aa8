-- ===== src/Config.antt =====
-- vdeplug-go/internal/config/config.go: the settings, the overrides on the command line and the
-- port-forwarding rules. Reading the YAML file is a library's.
pub mod Strings
pub mod Ports
pub mod Overrides
use uml_kernel_build.Common.{
  codes, ◌||◌, ℕ, Bool, true, false, Option, none, some, List, [], ◌∷◌, ltb, ◌==◌, if◌then◌else◌,
  nat_eq, bytes_eq, bytes_beq,
}
use uml_kernel_build.Config.Strings.{
  Text, trim_space, cut_prefix, split, split_at, parse_uint16, atoi,
}
use uml_kernel_build.Common.{ℤ, pos, negsuc}

pub record Forward : Type 0 where
  pub udp : Bool
  pub host_ip : Text
  pub host_port : ℕ
  pub guest_ip : Text
  pub guest_port : ℕ
  pub last_octet : ℕ

-- `switch` is none for nil.
pub record Config : Type 0 where
  pub ipv4 : Bool
  pub ipv6 : Bool
  pub switch : Option Bool
  pub socket : Text
  pub socket_file_location : Text
  pub socket_mode : ℕ
  pub uplink : Text
  pub network : Text
  pub gateway : Text
  pub nameserver : Text
  pub dhcp_start : Text
  pub hostname : Text
  pub mtu : ℤ
  pub port_fwd : Bool
  pub ports : List Text
  pub wireguard_conf_path : Text
  pub batch : ℤ

unfoldable pub defaults : Config
defaults = record {
  ipv4 = true;
  ipv6 = false;
  switch = none;
  socket = [];
  socket_file_location = [];
  socket_mode = 0;
  uplink = codes "slirp";
  network = codes "10.0.2.0/24";
  gateway = codes "10.0.2.2";
  nameserver = codes "10.0.2.3";
  dhcp_start = codes "10.0.2.15";
  hostname = [];
  mtu = pos 0;
  port_fwd = false;
  ports = [];
  wireguard_conf_path = [];
  batch = pos 16;
}

-- `file` is what reading and decoding the file gives: an error other than a missing file is `none`.
unfoldable pub load : Option (Option (Config → Option Config)) → Option Config
unfolding defaults
load file = elim file [
  | none ↦ none
  | some missing ↦ elim missing [
    | none ↦ some defaults
    | some decode ↦ elim (decode defaults) [
      | none ↦ none
      | some cfg ↦ elim cfg.socket_file_location [
        | [] ↦ some cfg
        | c ∷ path ↦ some (record cfg { socket = c ∷ path })
      ]
    ]
  ]
]

unfoldable pub switch_enabled : Config → Bool
switch_enabled c = elim c.switch [ none ↦ true | some on ↦ on ]

pub data Key : Type 0 where
  v6 mtu_key switch_key socket_key uplink_key dhcp_start_key network_key gateway_key batch_key
        other :
      Key

unfoldable pub key_of : Text → Key
key_of k =
    if bytes_beq k (codes "v6")
    then v6
    else if bytes_beq k (codes "mtu")
    then mtu_key
    else if bytes_beq k (codes "switch")
    then switch_key
    else if bytes_beq k (codes "socket")
    then socket_key
    else if bytes_beq k (codes "uplink")
    then uplink_key
    else if bytes_beq k (codes "dhcp_start")
    then dhcp_start_key
    else if bytes_beq k (codes "network")
    then network_key
    else if bytes_beq k (codes "gateway")
    then gateway_key
    else if bytes_beq k (codes "host")
    then gateway_key
    else if bytes_beq k (codes "addr")
    then gateway_key
    else if bytes_beq k (codes "batch")
    then batch_key
    else other

unfoldable pub is_on : Text → Bool
is_on v = bytes_beq v (codes "1") || bytes_beq v (codes "true")

unfoldable pub set_key : Key → Text → Config → Config
unfolding is_on
set_key v6 v c = record c { ipv6 = is_on v }
set_key mtu_key v c = elim (atoi v) [ none ↦ c | some n ↦ record c { mtu = n } ]
set_key switch_key v c = record c { switch = some (is_on v || bytes_beq v (codes "yes")) }
set_key socket_key v c = record c { socket = v }
set_key uplink_key v c = record c { uplink = v }
set_key dhcp_start_key v c = record c { dhcp_start = v }
set_key network_key v c = record c { network = v }
set_key gateway_key v c = record c {
  gateway = elim (split_at 47 v) [ none ↦ v | some (first, _) ↦ first ];
}
set_key batch_key v c = elim (atoi v) [ none ↦ c | some n ↦ record c { batch = n } ]
set_key other v c = c

unfoldable pub apply_key : Text → Text → Config → Config
unfolding key_of set_key
apply_key k v c = set_key (key_of k) v c

-- One token; "switch" and "noswitch" are flags.
unfoldable pub apply_token : Text → Config → Config
unfolding apply_key
apply_token tok c = elim (split_at 61 tok) [
  | some (k, v) ↦ apply_key k v c
  | none ↦
      if bytes_beq tok (codes "switch")
      then record c { switch = some true }
      else if bytes_beq tok (codes "noswitch")
      then record c { switch = some false }
      else c
]

unfoldable pub apply_tokens : List Text → Config → Config
unfolding apply_token
apply_tokens [] c = c
apply_tokens (tok ∷ toks) c = apply_tokens toks (apply_token tok c)

unfoldable pub apply_vnl : Text → Config → Config
unfolding apply_tokens
apply_vnl params c = apply_tokens (split 47 params) c

unfoldable pub two_ports : Text → Text → Option (ℕ × ℕ)
two_ports host guest = elim (parse_uint16 (trim_space host)) [
  | none ↦ none
  | some hp ↦ elim (parse_uint16 (trim_space guest)) [
    | none ↦ none
    | some gp ↦ if (hp == 0) || (gp == 0) then none else some (hp, gp)
  ]
]

-- The protocol in front of the rule: "udp " or "tcp ".
unfoldable pub protocol_of : Text → Bool × Text
protocol_of spec = elim (cut_prefix (codes "udp ") spec) [
  | some rest ↦ (true, trim_space rest)
  | none ↦ elim (cut_prefix (codes "tcp ") spec) [
    | some rest ↦ (false, trim_space rest)
    | none ↦ (false, spec)
  ]
]

-- The range check on the octet of a ".N" address, which leaves the guest's address empty.
unfoldable pub last_octet_of : ℤ → Option (Text × ℕ)
last_octet_of (negsuc _) = none
last_octet_of (pos n) = if ltb n 1 || ltb 254 n then none else some ([], n)

-- `valid_ip` says whether `net.ParseIP` accepts a text.
module _ (valid_ip : Text → Bool) where
  -- The address in front of the ports: a last octet (".15") or an IP address.
  unfoldable pub parse_address : Text → Option (Text × ℕ)
  unfolding last_octet_of
  parse_address addr = elim (cut_prefix (codes ".") addr) [
    | some octet ↦ elim (atoi octet) [ none ↦ none | some n ↦ last_octet_of n ]
    | none ↦ if valid_ip addr then some (addr, 0) else none
  ]

  -- The rule in its parts between the colons.
  unfoldable pub rule_of : Bool → List Text → Option Forward
  unfolding parse_address two_ports
  rule_of udp (a ∷ b ∷ []) = elim (two_ports a b) [
    | none ↦ none
    | some (hp, gp) ↦ some (record {
      udp = udp;
      host_ip = [];
      host_port = hp;
      guest_ip = [];
      guest_port = gp;
      last_octet = 0;
    })
  ]
  rule_of udp (a ∷ b ∷ c ∷ []) = elim (parse_address (trim_space a)) [
    | none ↦ none
    | some (ip, octet) ↦ elim (two_ports b c) [
      | none ↦ none
      | some (hp, gp) ↦ some (record {
        udp = udp;
        host_ip = [];
        host_port = hp;
        guest_ip = ip;
        guest_port = gp;
        last_octet = octet;
      })
    ]
  ]
  rule_of udp _ = none

  unfoldable pub parse_rule : Text → Option Forward
  unfolding rule_of protocol_of
  parse_rule raw = let (udp, spec) = protocol_of (trim_space raw) in rule_of udp (split 58 spec)

  unfoldable pub parse_rules : List Text → Option (List Forward)
  unfolding parse_rule
  parse_rules [] = some []
  parse_rules (raw ∷ raws) = elim (parse_rule raw) [
    | none ↦ none
    | some f ↦ elim (parse_rules raws) [ none ↦ none | some out ↦ some (f ∷ out) ]
  ]

  unfoldable pub parse_ports : Config → Option (List Forward)
  unfolding parse_rules
  parse_ports c = parse_rules c.ports
