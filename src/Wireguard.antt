-- ===== src/Wireguard.antt =====
-- The tunnel's configuration of vdeplug-go/internal/wgup/conf.go (`Parse`), from the lines that
-- `bufio.Scanner` gives. `none` is an error.
pub mod Complete
pub mod Paths
use uml_kernel_build.Common.{
  codes, ◌||◌, ℕ, ◌+◌, Bool, ◌&&◌, Option, none, some, List, [], ◌∷◌, ◌++◌, ltb, leb, ◌==◌,
  if◌then◌else◌, nat_eq, bytes_eq, length, get_or, Bytes, bytes_beq,
}
use uml_kernel_build.Config.Strings.{Text, trim_space, cut_prefix, split, split_at, atoi}
use uml_kernel_build.Common.{ℤ, pos, negsuc}

pub record Conf : Type 0 where
  pub private_key : Bytes
  pub preshared_key : Bytes
  pub addresses : List (Bytes × ℕ)
  pub dns : List Bytes
  pub peer_key : Bytes
  pub allowed_ips : List (Bytes × ℕ)
  pub endpoint : Text
  pub keepalive : ℕ
  pub mtu : ℤ

pub data Section : Type 0 where
  interface_section peer_section other_section : Section

pub data Key : Type 0 where
  private_key_key address_key dns_key mtu_key public_key_key preshared_key_key allowed_ips_key
        endpoint_key keepalive_key other_key :
      Key

-- What the packages net and encoding/base64 decide: `decode_base64`; `parse_cidr`, a masked network and
-- its prefix length; `parse_ip`, 4 bytes or 16; `split_host_port`, whether it accepts.
pub record Decoders : Type 0 where
  pub decode_base64 : Text → Option Bytes
  pub parse_cidr : Text → Option (Bytes × ℕ)
  pub parse_ip : Text → Option Bytes
  pub split_host_port : Text → Bool

unfoldable pub lower : Text → Text
lower [] = []
lower (c ∷ s) = (if leb 65 c && leb c 90 then c + 32 else c) ∷ lower s

-- `strings.Trim(line, "[]")`
unfoldable pub trim_left_brackets : Text → Text
trim_left_brackets [] = []
trim_left_brackets (c ∷ s) =
    let rest = trim_left_brackets s in if (c == 91) || (c == 93) then rest else c ∷ s

unfoldable pub trim_right_brackets : Text → Text
trim_right_brackets [] = []
trim_right_brackets (c ∷ s) =
    let rest = trim_right_brackets s in
    if (length rest == 0) && ((c == 91) || (c == 93)) then [] else c ∷ rest

unfoldable pub section_of : Text → Section
section_of s =
    if bytes_beq s (codes "Interface")
    then interface_section
    else if bytes_beq s (codes "Peer")
    then peer_section
    else other_section

unfoldable pub key_of : Section → Text → Key
key_of interface_section k =
    if bytes_beq k (codes "privatekey")
    then private_key_key
    else if bytes_beq k (codes "address")
    then address_key
    else if bytes_beq k (codes "dns")
    then dns_key
    else if bytes_beq k (codes "mtu")
    then mtu_key
    else other_key
key_of peer_section k =
    if bytes_beq k (codes "publickey")
    then public_key_key
    else if bytes_beq k (codes "presharedkey")
    then preshared_key_key
    else if bytes_beq k (codes "allowedips")
    then allowed_ips_key
    else if bytes_beq k (codes "endpoint")
    then endpoint_key
    else if bytes_beq k (codes "persistentkeepalive")
    then keepalive_key
    else other_key
key_of other_section k = other_key

unfoldable pub keepalive_of : ℤ → Option ℕ
keepalive_of (pos n) = if ltb 65535 n then none else some n
keepalive_of (negsuc n) = none

unfoldable pub empty_conf : Conf
empty_conf = record {
  private_key = [];
  preshared_key = [];
  addresses = [];
  dns = [];
  peer_key = [];
  allowed_ips = [];
  endpoint = [];
  keepalive = 0;
  mtu = pos 0;
}

module _ (d : Decoders) where
  unfoldable pub decode_key : Text → Option Bytes
  decode_key value = elim (d.decode_base64 value) [
    | none ↦ none
    | some raw ↦ if length raw == 32 then some raw else none
  ]

  -- A network, or the host route of a bare address.
  unfoldable pub parse_network : Text → Option (Bytes × ℕ)
  parse_network part = elim (d.parse_cidr part) [
    | some net ↦ some net
    | none ↦ elim (d.parse_ip part) [
      | none ↦ none
      | some ip ↦ some (ip, if length ip == 4 then 32 else 128)
    ]
  ]

  unfoldable pub parse_networks : List Text → Option (List (Bytes × ℕ))
  unfolding parse_network
  parse_networks [] = some []
  parse_networks (raw ∷ raws) =
      let rest = parse_networks raws in
      let part = trim_space raw in
      if length part == 0 then rest else elim (parse_network part) [
        | none ↦ none
        | some net ↦ elim rest [ none ↦ none | some nets ↦ some (net ∷ nets) ]
      ]

  unfoldable pub parse_cidrs : Text → Option (List (Bytes × ℕ))
  unfolding parse_networks
  parse_cidrs value = parse_networks (split 44 value)

  unfoldable pub parse_dns : List Text → List Bytes
  parse_dns [] = []
  parse_dns (raw ∷ raws) = elim (d.parse_ip (trim_space raw)) [
    | none ↦ parse_dns raws
    | some ip ↦ ip ∷ parse_dns raws
  ]

  unfoldable pub set_key : Key → Text → Conf → Option Conf
  unfolding decode_key parse_cidrs parse_dns keepalive_of
  set_key private_key_key v c = elim (decode_key v) [
    | none ↦ none
    | some k ↦ some (record c { private_key = k })
  ]
  set_key address_key v c = elim (parse_cidrs v) [
    | none ↦ none
    | some nets ↦ some (record c { addresses = nets })
  ]
  set_key dns_key v c = some (record c { dns = c.dns ++ parse_dns (split 44 v) })
  set_key mtu_key v c = elim (atoi v) [ none ↦ none | some n ↦ some (record c { mtu = n }) ]
  set_key public_key_key v c = elim (decode_key v) [
    | none ↦ none
    | some k ↦ some (record c { peer_key = k })
  ]
  set_key preshared_key_key v c = elim (decode_key v) [
    | none ↦ none
    | some k ↦ some (record c { preshared_key = k })
  ]
  set_key allowed_ips_key v c = elim (parse_cidrs v) [
    | none ↦ none
    | some nets ↦ some (record c { allowed_ips = nets })
  ]
  set_key endpoint_key v c = if d.split_host_port v then some (record c { endpoint = v }) else none
  set_key keepalive_key v c = elim (atoi v) [
    | none ↦ none
    | some n ↦ elim (keepalive_of n) [ none ↦ none | some ka ↦ some (record c { keepalive = ka }) ]
  ]
  set_key other_key v c = some c

  -- One trimmed line; "#" and ";" begin a comment, "[" a section.
  unfoldable pub parse_line : Text → Section → Conf → Option (Section × Conf)
  unfolding set_key key_of section_of lower trim_left_brackets trim_right_brackets
  parse_line line section c =
      let head = get_or line 0 35 in
      if (head == 35) || (head == 59)
      then some (section, c)
      else if head == 91
      then some (section_of (trim_right_brackets (trim_left_brackets line)), c)
      else elim (split_at 61 line) [
        | none ↦ none
        | some (k, v) ↦ elim (set_key (key_of section (lower (trim_space k))) (trim_space v) c) [
          | none ↦ none
          | some c' ↦ some (section, c')
        ]
      ]

  unfoldable pub parse_lines : List Text → Section → Conf → Option Conf
  unfolding parse_line
  parse_lines [] section c = some c
  parse_lines (raw ∷ raws) section c = elim (parse_line (trim_space raw) section c) [
    | none ↦ none
    | some (section', c') ↦ parse_lines raws section' c'
  ]

  unfoldable pub parse : List Text → Option Conf
  unfolding parse_lines empty_conf
  parse raws = elim (parse_lines raws other_section empty_conf) [
    | none ↦ none
    | some c ↦
        if (length c.private_key == 0)
          || (length c.peer_key == 0)
          || (length c.allowed_ips == 0)
          || (length c.endpoint == 0)
        then none
        else some c
  ]
