-- ===== src/Uplink.antt =====
-- The uplink port of vdeplug-go/main.go (`uplinkSink`, `arpForOwnAddr`, `ownAddrs`): which of the
-- frames that the switch sends out reach the netstack.
pub mod Arp
use uml_kernel_build.Common.{
  ◌||◌, ℕ, Bool, true, false, not, Option, none, some, List, [], ◌∷◌, ltb, ◌==◌, if◌then◌else◌,
  nat_eq, bytes_eq, length, drop, Bytes, bytes_beq, slice, copy_n, read16,
}
use uml_kernel_build.Headers.{Headers}
use uml_kernel_build.Dhcp.Pool.{Pool}
use uml_kernel_build.Dhcp.Server as Server
use uml_kernel_build.Dhcp.Server.{Messages, Options, panics, ignored, replied}
use uml_kernel_build.Icmp.Relay as Relays
use uml_kernel_build.Icmp.Relay.{Relay, Handled}

unfoldable pub arp_for_own_addr : (Bytes → Bool) → Bytes → Bool
arp_for_own_addr own frame =
    let arp = drop 14 frame in
    if ltb (length frame) 14 || not (read16 (slice 12 14 frame) == 0x0806)
    then true
    else if ltb (length frame) 42
    then false
    else if not (read16 (slice 6 8 arp) == 1)
    then true
    else own (copy_n 4 (slice 24 28 arp))

-- The addresses are the gateway's and the nameserver's `To4()`.
unfoldable pub own_addrs : List (Option Bytes) → Bytes → Bool
own_addrs [] a = false
own_addrs (none ∷ ips) a = own_addrs ips a
own_addrs (some ip ∷ ips) a = bytes_beq (copy_n 4 ip) a || own_addrs ips a

-- What became of a frame: `answered` forwards the DHCP reply into the switch, `relayed` gave the ICMP
-- packets to the host's socket, `injected` handed the frame to the netstack.
pub data Fate : Type 0 where
  crashed shed injected : Fate
  answered : (reply : Bytes) → Fate
  relayed : (packets : List (Bytes × Bytes)) → Fate

-- `pool` is the DHCP server's, none where there is no server.
pub record Uplink : Type 0 where
  pub pool : Option Pool
  pub relay : Relay

module _ {ℓ} (h : Headers) (m : Messages {ℓ}) (o : Options m.Text) (server_mac : Bytes) where
  unfoldable pub after_dhcp : ℕ → (Bytes → Bool) → Bool → Bytes → Uplink → Fate × Uplink
  unfolding arp_for_own_addr Relays.handle_frame
  after_dhcp now own send_ok frame u = elim (Relays.handle_frame h now own send_ok frame u.relay) [
    | none ↦ (crashed, u)
    | some r ↦
        let u' : Uplink = record u { relay = r.relay } in
        if r.consumed
        then (relayed r.sent, u')
        else if not (arp_for_own_addr own frame)
        then (shed, u')
        else (injected, u')
  ]

  -- `behind` is as in the DHCP server's `handle_frame`.
  unfoldable pub send_frame : ℕ → (Bytes → Bool) → Bool → Bytes → Bytes → Uplink → Fate × Uplink
  unfolding after_dhcp Server.handle_frame
  send_frame now own send_ok behind frame u = elim u.pool [
    | none ↦ after_dhcp now own send_ok frame u
    | some p ↦
        let (outcome, p') = Server.handle_frame h m o server_mac behind frame p in
        let u' : Uplink = record u { pool = some p' } in
        elim outcome [
          | panics ↦ (crashed, u')
          | ignored ↦ after_dhcp now own send_ok frame u'
          | replied reply ↦ (answered reply, u')
        ]
  ]
