-- ===== src/Dhcp/Server.antt =====
-- The DHCP server of vdeplug-go/internal/dhcp/dhcp.go, from the guest's frame to the reply frame.
pub mod Offers
use uml_kernel_build.Common.{
  ◌||◌, ℕ, ◌+◌, ◌-◌, ◌*◌, ◌%◌, ◌^◌, Bool, not, ◌&&◌, Option, none, some, List, [], ◌∷◌, ◌++◌, ltb,
  leb, ◌==◌, if◌then◌else◌, nat_eq, bytes_eq, length, drop, Bytes, byte_at, slice, copy_n, read16,
}
use uml_kernel_build.Headers.{Headers}
use uml_kernel_build.Dhcp.Pool.{Pool, get_or_assign}

-- The options that the server sets. An address is `none` where `net.ParseIP` gives nil.
pub data DhcpOption {ℓ} (Text : Type ℓ) : Type ℓ where
  server_identifier router name_server : (ip : Option Bytes) → DhcpOption Text
  lease_time : (ns : ℕ) → DhcpOption Text
  subnet_mask : (mask : Bytes) → DhcpOption Text
  interface_mtu : (mtu : ℕ) → DhcpOption Text
  search_list : (domains : List Text) → DhcpOption Text
  message_type : (kind : ℕ) → DhcpOption Text

-- The package dhcpv4 (messages), and the text forms of addresses of the package net (`parse_ip` with
-- `To4`; `parse_mask` is the mask that `ParseCIDR` gives).
pub record Messages {ℓ} : Type (ℓ + 1) where
  pub Text : Type ℓ
  pub Message : Type ℓ
  pub from_bytes : Bytes → Option Message
  pub kind_of : Message → ℕ
  pub client_address : Message → Bytes
  pub is_broadcast : Message → Bool
  pub reply_from : Message → Option Message
  pub set_address : Bytes → Message → Message
  pub update : DhcpOption Text → Message → Message
  pub to_bytes : Message → Bytes
  pub parse_ip : Text → Option Bytes
  pub parse_mask : Text → Option Bytes

-- DHCP message types.
abbrev pub discover : ℕ
discover = 1

abbrev pub offer : ℕ
offer = 2

abbrev pub request : ℕ
request = 3

abbrev pub ack : ℕ
ack = 5

abbrev pub server_port : ℕ
server_port = 67

-- `mtu` is at least 0 here: the source sets the option for 1 to 65535 only.
pub record Options {ℓ} (Text : Type ℓ) : Type ℓ where
  pub network : Text
  pub gateway_ip : Text
  pub nameserver : Text
  pub mtu : ℕ
  pub lease_ns : ℕ
  pub search_domains : List Text

pub data Outcome : Type 0 where
  panics ignored : Outcome
  replied : (frame : Bytes) → Outcome

-- `New` with the default lease time of an hour.
unfoldable pub new_options {ℓ} : {Text : Type ℓ} → Options Text → Options Text
new_options o = if o.lease_ns == 0 then record o { lease_ns = 3600 * 1_000_000_000 } else o

module _ {ℓ} (h : Headers) (m : Messages {ℓ}) (o : Options m.Text) (server_mac : Bytes) where
  open m use {
    Text, Message, from_bytes, kind_of, client_address, is_broadcast, reply_from, set_address,
    update, to_bytes, parse_ip, parse_mask,
  }
  open h use {protocol, header_length, ip_payload, udp_port, ip_header, udp_header, ethernet_header}

  unfoldable pub gateway_bytes : Bytes
  gateway_bytes = elim (parse_ip o.gateway_ip) [
    | none ↦ 10 ∷ 0 ∷ 2 ∷ 2 ∷ []
    | some ip ↦ byte_at ip 0 ∷ byte_at ip 1 ∷ byte_at ip 2 ∷ byte_at ip 3 ∷ []
  ]

  -- `address` is `yiaddr.To4()`.
  unfoldable pub reply_frame : Bytes → Bytes → Option Bytes → Bool → Bytes
  unfolding gateway_bytes
  reply_frame payload client_mac address wants_broadcast =
      let everyone : Bytes × Bytes =
        (255 ∷ 255 ∷ 255 ∷ 255 ∷ [], 255 ∷ 255 ∷ 255 ∷ 255 ∷ 255 ∷ 255 ∷ []) in
      let to : Bytes × Bytes =
        if wants_broadcast
        then everyone
        else elim address [ none ↦ everyone | some y ↦ (copy_n 4 y, client_mac) ] in
      let udp_len = 8 + length payload in
      ethernet_header server_mac to.1 0x0800
      ++ (ip_header ((20 + udp_len) % 2 ^ 16) 64 17 gateway_bytes to.0
          ++ (udp_header 67 68 gateway_bytes to.0 payload ++ payload))

  -- The options in the source's order.
  unfoldable pub fill_reply : Bytes → Bytes → ℕ → Message → Message
  fill_reply ip mask kind reply =
      let gateway = parse_ip o.gateway_ip in
      let r1 = update (server_identifier gateway) (set_address ip reply) in
      let r2 = update (subnet_mask mask) (update (lease_time o.lease_ns) r1) in
      let r3 = update (name_server (parse_ip o.nameserver)) (update (router gateway) r2) in
      let r4 = if ltb 0 o.mtu && leb o.mtu 65535 then update (interface_mtu o.mtu) r3 else r3 in
      let r5 =
        if ltb 0 (length o.search_domains) then update (search_list o.search_domains) r4 else r4 in
      update (message_type kind) r5

  -- The type of the reply, for the types that are answered.
  unfoldable pub answer_kind : ℕ → Option ℕ
  answer_kind kind =
      if kind == discover then some offer else if kind == request then some ack else none

  -- A datagram that does not parse is logged with two slices of it, `[0:16]` and `[230:246]`, which are
  -- taken whether or not the log is on. A slice may reach into the capacity behind the payload, which
  -- is `spare` bytes of the frame.
  unfoldable pub log_unparsed : ℕ → Bytes → Outcome
  log_unparsed spare payload =
      if ltb 244 (length payload) && ltb (length payload + spare) 246 then panics else ignored

  unfoldable pub handle_packet : ℕ → Bytes → Bytes → Pool → Outcome × Pool
  unfolding log_unparsed answer_kind fill_reply reply_frame
  handle_packet spare payload guest_mac p = elim (from_bytes payload) [
    | none ↦ (log_unparsed spare payload, p)
    | some msg ↦ elim (answer_kind (kind_of msg)) [
      | none ↦ (ignored, p)
      | some kind ↦ elim (reply_from msg) [
        | none ↦ (ignored, p)
        | some reply ↦
            let (assigned, p') = get_or_assign (client_address msg) p in
            elim assigned [
              | none ↦ (ignored, p')
              | some ip ↦ elim (parse_mask o.network) [
                | none ↦ (ignored, p')
                | some mask ↦ (
                  replied (
                      reply_frame (to_bytes (fill_reply ip mask kind reply)) guest_mac (some ip)
                        (is_broadcast msg)),
                  p',
                )
              ]
            ]
      ]
    ]
  ]

  -- `behind` are the bytes that the frame's buffer has after the frame: none for one that is handed on
  -- directly, the rest of a buffer of the pool for one from a port's queue. A slice may reach into them.
  unfoldable pub handle_frame : Bytes → Bytes → Pool → Outcome × Pool
  unfolding handle_packet
  handle_frame behind frame p =
      let ip = drop 14 frame in
      let buffer = ip ++ behind in
      if ltb (length frame) 42
      then (ignored, p)
      else if not (read16 (slice 12 14 frame) == 0x0800)
      then (ignored, p)
      else if not (protocol ip == 17)
      then (ignored, p)
      else elim (ip_payload buffer) [
        | none ↦ (panics, p)
        | some udp ↦
            if ltb (length udp) 8 || not (udp_port udp == server_port)
            then (ignored, p)
            else handle_packet (length buffer - header_length ip - length udp) (drop 8 udp)
                (copy_n 6 (slice 6 12 frame)) p
      ]

  -- The pool after a sequence of frames, each with what is behind it.
  unfoldable pub handle_all : List (Bytes × Bytes) → Pool → Pool
  unfolding handle_frame
  handle_all [] p = p
  handle_all ((behind, frame) ∷ frames) p = handle_all frames (handle_frame behind frame p).1
