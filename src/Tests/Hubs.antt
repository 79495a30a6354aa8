-- ===== src/Tests/Hubs.antt =====
-- An instance at concrete inputs.
use uml_kernel_build.Common.{
  ℕ, ◌+◌, ◌≤◌, ◌<◌, ◌≡◌, ◌≢◌, inl, refl, true, false, none, some, List, [], ◌∷◌, ◌++◌, arith,
  nat_eq, bytes_eq, length, replicate, Bytes, codes, slice, cut, be32, read32, lookup, insert,
}
use uml_kernel_build.Dhcp.Pool.{new_pool, get_or_assign, lease_addr}
use uml_kernel_build.Dhcp.Pool.Requests.{serve}
use uml_kernel_build.Dhcp.Subnet.{broadcast_of, usable_leases}
use uml_kernel_build.Dhcp.Server as Server
use uml_kernel_build.Uplink as Uplinks
use uml_kernel_build.Uplink.{Uplink, Fate, answered}
use uml_kernel_build.Switch.{uplink, local, Switch, new, add_port, is_multicast, learn, port_eq}
use uml_kernel_build.Config.Strings.{cut_prefix}
use uml_kernel_build.Hub.{
  Delivered, to_guest, netstack, Hub, ports_of, uplink_kind, tap_name, tap, slirp, lease_pool,
  arrive,
}
use uml_kernel_build.Hub.Depth
use uml_kernel_build.Hub.Dhcp
use uml_kernel_build.Hub.Dhcp.{Alone}
use uml_kernel_build.Hub.Leases
use uml_kernel_build.Tests.Relays.{plain_headers}
use uml_kernel_build.Tests.Servers.{
  net, mask, first_guest, short_messages, options, server_mac, mac_a, discover_a, pool, port,
}

-- A name that starts like it is taken for the tap device.
kinds :
    (uplink_kind (codes "tap:vm1") ≡ some (tap (codes "vm1")))
    × (uplink_kind (codes "tapestry") ≡ some (tap (codes "tap0")))
    × (uplink_kind [] ≡ some (slirp false))
    × (uplink_kind (codes "bridge") ≡ none)
unfolding uplink_kind tap_name cut_prefix
kinds = (refl, refl, refl, refl)

-- A DISCOVER from 0.0.0.0 port 68 to port 67.
abbrev discover_frame : Bytes
discover_frame =
    replicate 6 255
    ++ (mac_a
        ++ (8 ∷ 0 ∷ 0x45 ∷ 0 ∷ 0 ∷ 35 ∷ 0 ∷ 0 ∷ 0 ∷ 0 ∷ 64 ∷ 17 ∷ 0 ∷ 0 ∷ 0 ∷ 0 ∷ 0 ∷ 0 ∷ 255 ∷ 255
            ∷ 255 ∷ 255 ∷ 0 ∷ 68 ∷ 0 ∷ 67 ∷ 0 ∷ 15 ∷ 0 ∷ 0 ∷ discover_a))

abbrev alone : Switch
unfolding ports_of add_port insert new
alone = ports_of new

alone-Alone : Alone alone [] []
unfolding ports_of add_port insert new
alone-Alone = (refl, refl)

abbrev outcome : Fate × Uplink
outcome =
    Uplinks.send_frame plain_headers short_messages options server_mac 5 (λ a. false) true []
      discover_frame port

reply_of : Fate → Bytes
reply_of (answered reply) = reply
reply_of _ = []

abbrev reply : Bytes
reply = reply_of outcome.0

served : outcome ≡ (answered reply, outcome.1)
unfolding reply_of Uplinks.send_frame Server.handle_frame Server.handle_packet Server.answer_kind
    Server.fill_reply Server.reply_frame get_or_assign lease_addr new_pool lookup cut
served = refl

reply_shape : (14 ≤ length reply) × (slice 6 12 reply ≢ mac_a) × (slice 0 6 reply ≡ mac_a)
unfolding reply_of Uplinks.send_frame Server.handle_frame Server.handle_packet Server.answer_kind
    Server.fill_reply Server.reply_frame get_or_assign lease_addr new_pool lookup cut
reply_shape = (omega arith, λ e. absurd (ground arith), refl)

arrive_two_example :
    (r : List Delivered × Hub) × (arrive plain_headers short_messages options server_mac 5
        (λ a. false)
        true
        2
        local
        discover_frame
        (record { switch = alone; sink = netstack port })
      ≡ some r)
    × (arrive plain_headers short_messages options server_mac 5
          (λ a. false)
          true
          5
          local
          discover_frame
          (record { switch = alone; sink = netstack port })
        ≡ some r)
arrive_two_example =
    Depth.arrive_two plain_headers short_messages options server_mac 5 (λ a. false) true 3 local
      discover_frame (record { switch = alone; sink = netstack port })

arrive_dhcp_example :
    arrive plain_headers short_messages options server_mac 5
      (λ a. false)
      true
      2
      local
      discover_frame
      (record { switch = alone; sink = netstack port })
    ≡ some (
      to_guest reply ∷ [],
      record {
        switch =
            learn 5 (slice 6 12 reply) uplink (learn 5 (slice 6 12 discover_frame) local alone);
        sink = netstack outcome.1;
      },
    )
arrive_dhcp_example =
    Dhcp.arrive_dhcp plain_headers short_messages options server_mac 5 (λ a. false) true
      discover_frame reply alone [] [] port outcome.1 alone-Alone (omega arith)
      (unfold is_multicast in refl) (unfold is_multicast in refl) served reply_shape.0 reply_shape.1
      (inl reply_shape.2)

leased : lease_pool (some (some net, mask)) (some (some first_guest)) [] ≡ some (some pool)
unfolding lease_pool usable_leases broadcast_of new_pool
leased = refl

has_first : lookup mac_a (serve (mac_a ∷ []) pool).assigned ≡ some first_guest
unfolding serve get_or_assign lease_addr new_pool lookup insert
has_first = refl

lease_pool_inside_example :
    (mac_a ≡ mac_a)
    × (off : ℕ) × (off < 256)
    × (first_guest ≡ be32 (read32 first_guest + off))
    × (read32 net ≤ read32 first_guest + off)
    × (read32 first_guest + off < broadcast_of (read32 net) (read32 mask))
lease_pool_inside_example =
    Leases.lease_pool_inside net mask first_guest pool (mac_a ∷ []) mac_a mac_a first_guest refl
      leased has_first has_first
