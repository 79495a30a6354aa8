-- ===== src/Tests/Servers.antt =====
-- The DHCP server and the uplink port at concrete inputs.
use uml_kernel_build.Common.{
  ◌||◌, ℕ, ◌*◌, ◌≡◌, ◌↔◌, refl, true, false, none, some, [], ◌∷◌, ◌++◌, arith, ltb, if◌then◌else◌,
  nat_eq, bytes_eq, length, replicate, Bytes, bytes_beq, byte_at, slice, lookup,
}
use uml_kernel_build.Dhcp.Pool.{Pool, new_pool, lease_addr, get_or_assign}
use uml_kernel_build.Dhcp.Subnet.{broadcast_of, usable_leases}
use uml_kernel_build.Dhcp.Server.{
  Messages, Options, panics, replied, ack, fill_reply, answer_kind, reply_frame, handle_packet,
  handle_all,
}
use uml_kernel_build.Dhcp.Server.Offers
use uml_kernel_build.Uplink.{Uplink, shed, send_frame}
use uml_kernel_build.Uplink.Arp
use uml_kernel_build.Tests.Relays.{plain_headers}

abbrev pub net : Bytes
net = 10 ∷ 0 ∷ 2 ∷ 0 ∷ []

abbrev pub mask : Bytes
mask = 255 ∷ 255 ∷ 255 ∷ 0 ∷ []

abbrev pub first_guest : Bytes
first_guest = 10 ∷ 0 ∷ 2 ∷ 250 ∷ []

five_left : usable_leases (some (some net, mask)) (some first_guest) 256 ≡ some 5
unfolding usable_leases broadcast_of
five_left = refl

-- A network of IPv6 is a panic and not a pool of size 0.
ipv6_network : usable_leases (some (none, mask)) (some first_guest) 256 ≡ none
unfolding usable_leases
ipv6_network = refl

-- Messages of a byte for the type and six for the hardware address, behind at most 244 bytes.
abbrev pub short_messages : Messages {0}
short_messages = record {
  Text = Bytes;
  Message = Bytes;
  from_bytes = λ b. if ltb (length b) 7 || ltb 20 (length b) then none else some b;
  kind_of = λ b. byte_at b 0;
  client_address = λ b. slice 1 7 b;
  is_broadcast = λ b. false;
  reply_from = λ b. some b;
  set_address = λ ip b. b ++ ip;
  update = λ o b. b;
  to_bytes = λ b. b;
  parse_ip = λ t. some t;
  parse_mask = λ t. some mask;
}

abbrev pub options : Options Bytes
options = record {
  network = [];
  gateway_ip = 10 ∷ 0 ∷ 2 ∷ 2 ∷ [];
  nameserver = 10 ∷ 0 ∷ 2 ∷ 3 ∷ [];
  mtu = 0;
  lease_ns = 3600 * 1_000_000_000;
  search_domains = [];
}

abbrev pub server_mac : Bytes
server_mac = 0x7a ∷ 0x72 ∷ 0x6d ∷ 0x3c ∷ 0xd7 ∷ 0x23 ∷ []

abbrev pub mac_a : Bytes
mac_a = 2 ∷ 0 ∷ 0 ∷ 0 ∷ 0 ∷ 1 ∷ []

abbrev pub discover_a : Bytes
discover_a = 1 ∷ mac_a

abbrev request_a : Bytes
request_a = 3 ∷ mac_a

abbrev pub pool : Pool
pool = new_pool (some first_guest) 5

handle_packet_panics_example :
    ((handle_packet plain_headers short_messages options server_mac 0
        (replicate 245 1)
        mac_a
        pool).0
      ≡ panics)
    ↔ ((short_messages.from_bytes (replicate 245 1) ≡ none)
        × (length (replicate {A = ℕ} 245 1) ≡ 245)
        × (◌≡◌ {A = ℕ} 0 0))
handle_packet_panics_example =
    Offers.handle_packet_panics plain_headers short_messages options server_mac 0 (replicate 245 1)
      mac_a pool

crash :
    (handle_packet plain_headers short_messages options server_mac 0 (replicate 245 1) mac_a pool).0
    ≡ panics
crash = handle_packet_panics_example.1 (refl, refl, refl)

offered : handle_packet plain_headers short_messages options server_mac 0 discover_a mac_a pool ≡ (
  replied (
      reply_frame plain_headers short_messages options server_mac
        (fill_reply plain_headers short_messages options server_mac first_guest mask 2 discover_a)
        mac_a
        (some first_guest)
        false),
  (get_or_assign mac_a pool).1,
)
unfolding handle_packet answer_kind get_or_assign lease_addr new_pool lookup
offered = refl

offer_kept_example :
    (ip : Bytes) × (mask' : Bytes) × (kind : ℕ) × (reply : Bytes) × (reply_frame plain_headers
        short_messages options server_mac
        (fill_reply plain_headers short_messages options server_mac first_guest mask 2 discover_a)
        mac_a
        (some first_guest)
        false
      ≡ reply_frame plain_headers short_messages options server_mac
          (fill_reply plain_headers short_messages options server_mac ip mask' kind reply)
          mac_a
          (some ip)
          false)
    × (handle_packet plain_headers short_messages options server_mac 0 request_a mac_a (
          handle_all plain_headers short_messages options server_mac
            (([], discover_a) ∷ [])
            (get_or_assign mac_a pool).1)
        ≡ (
          replied (
              reply_frame plain_headers short_messages options server_mac
                (fill_reply plain_headers short_messages options server_mac ip mask' ack request_a)
                mac_a
                (some ip)
                false),
          handle_all plain_headers short_messages options server_mac
              (([], discover_a) ∷ [])
              (get_or_assign mac_a pool).1,
        ))
offer_kept_example =
    Offers.offer_kept plain_headers short_messages options server_mac 0 0 discover_a request_a mac_a
      mac_a
      (reply_frame plain_headers short_messages options server_mac
        (fill_reply plain_headers short_messages options server_mac first_guest mask 2 discover_a)
        mac_a (some first_guest) false)
      pool (get_or_assign mac_a pool).1 discover_a request_a request_a (([], discover_a) ∷ [])
      offered refl refl refl refl refl

-- A request for 10.0.2.9.
abbrev who_has : Bytes
who_has =
    255
    ∷ 255
    ∷ 255
    ∷ 255
    ∷ 255
    ∷ 255
    ∷ (mac_a
        ++ (8
            ∷ 6
            ∷ 0
            ∷ 1
            ∷ 8
            ∷ 0
            ∷ 6
            ∷ 4
            ∷ 0
            ∷ 1
            ∷ (mac_a ++ (10 ∷ 0 ∷ 2 ∷ 15 ∷ 0 ∷ 0 ∷ 0 ∷ 0 ∷ 0 ∷ 0 ∷ 10 ∷ 0 ∷ 2 ∷ 9 ∷ []))))

abbrev pub port : Uplink
port = record {
  pool = some pool;
  relay = record { src_mac = server_mac; host_id = 500; available = true; flows = []; seq = 0 };
}

send_frame_arp_example :
    send_frame plain_headers short_messages options server_mac 5
      (λ a. bytes_beq a (10 ∷ 0 ∷ 2 ∷ 2 ∷ []))
      true
      (0 ∷ 0 ∷ [])
      who_has
      port
    ≡ (shed, port)
send_frame_arp_example =
    Arp.send_frame_arp plain_headers short_messages options server_mac 5
      (λ a. bytes_beq a (10 ∷ 0 ∷ 2 ∷ 2 ∷ [])) true (0 ∷ 0 ∷ []) who_has port (omega arith) refl
      refl
