-- ===== src/Uplink/Arp.antt =====
-- ARP at the uplink port.
use uml_kernel_build.Common.{
  ℕ, ◌≤◌, ◌≡◌, inl, inr, refl, Bool, false, some, [], arith, if◌then◌else◌, Bool-cases,
  Option-cases, nat_eq, bytes_eq, length, drop-drop, Bytes, slice, copy_n, read16,
}
use uml_kernel_build.Headers.{Headers}
use uml_kernel_build.Dhcp.Server as Server
use uml_kernel_build.Dhcp.Server.{Messages, Options, ignored}
use uml_kernel_build.Dhcp.Pool.{Pool}
use uml_kernel_build.Icmp.Relay.{Relay}
use uml_kernel_build.Icmp.Relay as Relays
use uml_kernel_build.Uplink.{arp_for_own_addr, shed, injected, Uplink, after_dhcp, send_frame}

arp_for_own_addr_request :
    (own : Bytes → Bool) (frame : Bytes)
    → 42 ≤ length frame
    → read16 (slice 12 14 frame) ≡ 0x0806
    → read16 (slice 20 22 frame) ≡ 1
    → arp_for_own_addr own frame ≡ own (copy_n 4 (slice 38 42 frame))
unfolding arp_for_own_addr
arp_for_own_addr_request own frame long arp asks =
    ground (arith, drop-drop 6 14 frame, drop-drop 24 14 frame)

module _ {ℓ} (h : Headers) (m : Messages {ℓ}) (o : Options m.Text) (server_mac : Bytes) where
  ignored_by_server :
      (behind frame : Bytes) (p : Pool)
      → 42 ≤ length frame
      → read16 (slice 12 14 frame) ≡ 0x0806
      → Server.handle_frame h m o server_mac behind frame p ≡ (ignored, p)
  unfolding Server.handle_frame
  ignored_by_server behind frame p long arp = ground arith

  passed_by_relay :
      (now : ℕ) (own : Bytes → Bool) (send_ok : Bool) (frame : Bytes) (r : Relay)
      → 42 ≤ length frame
      → read16 (slice 12 14 frame) ≡ 0x0806
      → Relays.handle_frame h now own send_ok frame r
        ≡ some (record { consumed = false; sent = []; relay = r })
  unfolding Relays.handle_frame Relays.parse_echo_request
  passed_by_relay now own send_ok frame r long arp = ground arith

  after_dhcp_arp :
      (now : ℕ) (own : Bytes → Bool) (send_ok : Bool) (frame : Bytes) (u : Uplink)
      → 42 ≤ length frame
      → read16 (slice 12 14 frame) ≡ 0x0806
      → read16 (slice 20 22 frame) ≡ 1
      → after_dhcp h m o server_mac now own send_ok frame u
        ≡ ((if own (copy_n 4 (slice 38 42 frame)) then injected else shed), u)
  unfolding after_dhcp
  after_dhcp_arp now own send_ok frame u long arp asks =
      rw (passed_by_relay now own send_ok frame u.relay long arp, after_dhcp)
        (rw (arp_for_own_addr_request own frame long arp asks)
          (elim (Bool-cases (own (copy_n 4 (slice 38 42 frame)))) [
            | inl y ↦ rw y refl
            | inr n ↦ rw n refl
          ]))

  -- The whole uplink treats an ARP request of at least 42 bytes by the address that it asks for: the
  -- netstack gets it if the address is its own, and else it is shed, so that the real owner answers.
  -- The DHCP server and the ping relay stay as they are.
  pub send_frame_arp :
      (now : ℕ) (own : Bytes → Bool) (send_ok : Bool) (behind frame : Bytes) (u : Uplink)
      → 42 ≤ length frame
      → read16 (slice 12 14 frame) ≡ 0x0806
      → read16 (slice 20 22 frame) ≡ 1
      → send_frame h m o server_mac now own send_ok behind frame u
        ≡ ((if own (copy_n 4 (slice 38 42 frame)) then injected else shed), u)
  unfolding send_frame
  send_frame_arp now own send_ok behind frame u long arp asks = elim (Option-cases u.pool) [
    | inl e ↦ simp (e, send_frame, after_dhcp_arp now own send_ok frame u long arp asks)
    | inr (p, e) ↦ ground (
      arith,
      ignored_by_server behind frame p long arp,
      after_dhcp_arp now own send_ok frame u long arp asks,
    )
  ]
