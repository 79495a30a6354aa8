-- ===== src/Tests/Tunnels.antt =====
-- A tunnel's configuration and the command line at concrete inputs.
use uml_kernel_build.Common.{
  codes, ◌^◌, ◌<◌, ◌≡◌, ◌⊎◌, refl, true, none, some, List, [], ◌∷◌, nat_eq, bytes_eq, length,
}
use uml_kernel_build.Common.{pos}
use uml_kernel_build.Config.Strings.{
  Text, is_space, trim_left, trim_right, trim_space, cut_prefix, split, split_at, digits,
  atoi_digits, negate, atoi,
}
use uml_kernel_build.Wireguard.{
  Conf, Decoders, keepalive_of, lower, trim_left_brackets, trim_right_brackets, section_of, key_of,
  decode_key, parse_network, parse_networks, parse_cidrs, parse_dns, set_key, parse_line,
  parse_lines, parse, empty_conf,
}
use uml_kernel_build.Wireguard.Complete
use uml_kernel_build.Startup.{parse_args, parse_args_from}

texts : Unit {0}
unfolding is_space trim_left trim_right trim_space cut_prefix split split_at digits atoi_digits
    negate atoi keepalive_of lower trim_left_brackets trim_right_brackets section_of key_of
    decode_key parse_network parse_networks parse_cidrs parse_dns set_key parse_line parse_lines
    parse empty_conf parse_args parse_args_from
texts = tt

abbrev plain : Decoders
plain = record {
  decode_base64 = λ t. some t;
  parse_cidr = λ t. some (t, 8);
  parse_ip = λ t. none;
  split_host_port = λ t. true;
}

abbrev tunnel_lines : List Text
tunnel_lines =
    codes "[Interface]"
    ∷ codes "PrivateKey=aaaaaaaaaaaaaaaaaaaaaaaaaaaaaaaa"
    ∷ codes "# peers"
    ∷ codes "[Peer]"
    ∷ codes "PublicKey = bbbbbbbbbbbbbbbbbbbbbbbbbbbbbbbb"
    ∷ codes "AllowedIPs=10.0.0.0/8"
    ∷ codes "Endpoint=h:1"
    ∷ []

abbrev tunnel : Conf
tunnel = record {
  private_key = codes "aaaaaaaaaaaaaaaaaaaaaaaaaaaaaaaa";
  preshared_key = [];
  addresses = [];
  dns = [];
  peer_key = codes "bbbbbbbbbbbbbbbbbbbbbbbbbbbbbbbb";
  allowed_ips = (codes "10.0.0.0/8", 8) ∷ [];
  endpoint = codes "h:1";
  keepalive = 0;
  mtu = pos 0;
}

tunnel_parsed : parse plain tunnel_lines ≡ some tunnel
unfolding texts
tunnel_parsed = refl

parse_complete_example :
    (length tunnel.private_key ≡ 32)
    × (length tunnel.peer_key ≡ 32)
    × ((length tunnel.preshared_key ≡ 0) ⊎ (length tunnel.preshared_key ≡ 32))
    × (0 < length tunnel.allowed_ips)
    × (plain.split_host_port tunnel.endpoint ≡ true)
    × (tunnel.keepalive < 2 ^ 16)
parse_complete_example = Complete.parse_complete plain tunnel_lines tunnel tunnel_parsed

abbrev argv : List Text
argv = (codes "--descr") ∷ (codes "eth0") ∷ (codes "seqpacket://7") ∷ []

argv_parsed : (parse_args argv).fd ≡ pos 7
unfolding texts
argv_parsed = refl
