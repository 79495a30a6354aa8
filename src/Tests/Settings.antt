-- ===== src/Tests/Settings.antt =====
-- The settings and port forwarding at concrete inputs.
use uml_kernel_build.Common.{
  codes, ℕ, ◌≡◌, refl, true, false, Option, some, List, [], ◌∷◌, arith, ltb, nat_eq, bytes_eq,
  length, Bytes,
}
use uml_kernel_build.Config.Strings.{
  Text, is_space, trim_left, trim_right, trim_space, cut_prefix, split, split_at, digits,
  parse_uint16, atoi_digits, atoi,
}
use uml_kernel_build.Config.{
  Forward, Config, defaults, two_ports, protocol_of, last_octet_of, parse_address, rule_of,
  parse_rule, parse_rules, parse_ports, key_of, is_on, set_key, apply_key, apply_token,
  apply_tokens, apply_vnl,
}
use uml_kernel_build.Portfwd.{
  Sockets, Service, serving, refused, close, close_all, Host, guest_of, start_rules, start,
}
use uml_kernel_build.Portfwd.Cleanup
use uml_kernel_build.Portfwd.Paths.{PathTable, find_path, receive}
use uml_kernel_build.Portfwd.Cleanup.{Services}

settings : Unit {0}
unfolding is_space trim_left trim_right trim_space cut_prefix split split_at digits parse_uint16
    atoi_digits atoi defaults two_ports protocol_of last_octet_of parse_address rule_of parse_rule
    parse_rules parse_ports key_of is_on set_key apply_key apply_token apply_tokens apply_vnl close
    close_all guest_of start_rules start
settings = tt

abbrev udp_rule : Text
udp_rule = codes " udp .15:53:5353"

abbrev web_rule : Text
web_rule = codes "80:8"

abbrev udp_forward : Forward
udp_forward = record {
  udp = true;
  host_ip = [];
  host_port = 53;
  guest_ip = [];
  guest_port = 5353;
  last_octet = 15;
}

abbrev web_forward : Forward
web_forward = record {
  udp = false;
  host_ip = [];
  host_port = 80;
  guest_ip = [];
  guest_port = 8;
  last_octet = 0;
}

two_rules :
    parse_rules (λ t. false) (udp_rule ∷ web_rule ∷ []) ≡ some (udp_forward ∷ web_forward ∷ [])
unfolding settings
two_rules = refl

abbrev wide_network : Text
wide_network = codes "network=10.1.0.0/16"

-- The prefix length is lost.
cut_network : (apply_vnl wide_network defaults).network ≡ codes "10.1.0.0"
unfolding settings
cut_network = refl

-- Every text is an address, and one socket at most can be bound.
abbrev small_host : Host
small_host = record {
  to4 = λ t. some t;
  text_of = λ ip. ip;
  valid_ip = λ t. false;
  can_bind = λ held r. ltb (length held) 2;
}

abbrev two_ports_config : Config
two_ports_config = record defaults { ports = udp_rule ∷ web_rule ∷ [] }

abbrev before : Sockets
before = record { next = 4; held = 3 ∷ [] }

abbrev fallback : Option Bytes
fallback = some (10 ∷ 0 ∷ 2 ∷ 15 ∷ [])

second_clashes :
    start small_host fallback two_ports_config before
    ≡ (refused, record { next = 5; held = 3 ∷ [] })
unfolding settings
second_clashes = refl

start_refused_example : ◌≡◌ {A = List ℕ} (3 ∷ []) (3 ∷ [])
start_refused_example =
    Cleanup.start_refused small_host fallback two_ports_config before
      (record { next = 5; held = 3 ∷ [] }) (omega arith, tt) second_clashes

abbrev one_port_config : Config
one_port_config = record defaults { ports = udp_rule ∷ [] }

abbrev dns_service : Service
dns_service = record { socket = 4; udp = true; guest_ip = 10 ∷ 0 ∷ 2 ∷ 15 ∷ []; guest_port = 5353 }

starts :
    start small_host fallback one_port_config before
    ≡ (serving (dns_service ∷ []), record { next = 5; held = 4 ∷ 3 ∷ [] })
unfolding settings
starts = refl

abbrev dns_relay : PathTable
dns_relay = record {
  paths = record { ip = 9 ∷ 9 ∷ 9 ∷ 9 ∷ []; port = 1; guest = 7; last = 0 } ∷ [];
  next = 8;
  closed = [];
}

first_datagram : (receive 40_000_000_000 true (8 ∷ 8 ∷ 8 ∷ 8 ∷ []) 53 dns_relay).0 ≡ some 8
unfolding receive find_path
first_datagram = refl
