-- ===== src/Hub/Dhcp.antt =====
-- DHCP from the guest's frame to the guest: the switch, the uplink port and the server together.
use uml_kernel_build.Common.{
  ℕ, ◌≤◌, ◌≡◌, ◌≢◌, ◌⊎◌, inl, inr, refl, ap, ◌∙◌, Bool, true, false, some, List, [], ◌∷◌, arith,
  Bool-cases, nat_eq, bytes_eq, length, Bytes, bytes_beq_self, slice, lookup,
}
use uml_kernel_build.Headers.{Headers}
use uml_kernel_build.Dhcp.Server.{Messages, Options}
use uml_kernel_build.Uplink as Uplinks
use uml_kernel_build.Uplink.{Uplink, Fate, answered}
use uml_kernel_build.Switch.{
  pos, Port, port_beq, port_beq_iff, port_eq, uplink, local, Switch, is_multicast, learn, emit,
  targets, flood, forward,
}
use uml_kernel_build.Switch.Frames.{learned, found, learn-ports, forward_multicast, forward_known}
use uml_kernel_build.Switch.Learning.{learn-macs, learn-other, lookup_mac-fresh}
use uml_kernel_build.Switch.Invariant.{learn_lem}
use uml_kernel_build.Hub.{to_guest, netstack, settle, uplink_frame, port_frame, run_sink, arrive}
use uml_kernel_build.Hub.Depth.{flat, full, arrive-full}

local_not_uplink : local ≢ uplink
local_not_uplink e = absurd (cc ((port_beq_iff local uplink).1 e))

-- The guest is alone: the switch has its two ports and no peers.
abbrev pub Alone : Switch → List Bytes → List Bytes → Type 0
Alone s up_queue queue =
    (s.ports
      ≡ (uplink, record { sink = 0; out = up_queue })
        ∷ (local, record { sink = 1; out = queue })
        ∷ [])
    × (s.peers ≡ pos 0)

module _ (s : Switch) (up_queue queue : List Bytes) (alone : Alone s up_queue queue) where
  flood-local :
      (frame : Bytes)
      → flood local frame s ≡ (record { port = uplink; sink = 0; frame = frame } ∷ [], s)
  unfolding flood targets
  flood-local frame =
      let t : targets local s.ports ≡ (uplink, record { sink = 0; out = up_queue }) ∷ [] =
        rw alone.0 refl in
      rw (t, flood) refl

  flood-uplink :
      (frame : Bytes)
      → flood uplink frame s ≡ (record { port = local; sink = 1; frame = frame } ∷ [], s)
  unfolding flood targets
  flood-uplink frame =
      let t : targets uplink s.ports ≡ (local, record { sink = 1; out = queue }) ∷ [] =
        rw alone.0 refl in
      rw (t, flood) refl

  emit-local :
      (frame : Bytes)
      → emit local frame s ≡ (record { port = local; sink = 1; frame = frame } ∷ [], s)
  unfolding emit lookup
  emit-local frame =
      let there : lookup local s.ports ≡ some (record { sink = 1; out = queue }) =
        rw alone.0 refl in
      let inline : port_beq s.peers (pos 0) ≡ true = rw alone.1 refl in
      rw (there, emit) (rw inline refl)

learn-peers :
    (now : ℕ) (mac : Bytes) (from : Port) (s : Switch) → (learn now mac from s).peers ≡ s.peers
learn-peers now mac from s = rw learn_lem (ground arith)

learn-Alone :
    (now : ℕ) (mac : Bytes) (from : Port) (s : Switch) (up_queue queue : List Bytes)
    → Alone s up_queue queue
    → Alone (learn now mac from s) up_queue queue
learn-Alone now mac from s up_queue queue (ports, peers) =
    (learn-ports now mac from s ∙ ports, learn-peers now mac from s ∙ peers)

-- A broadcast of the guest is handed to the netstack's port, and its source is known from then on.
broadcast_up :
    (now : ℕ) (frame : Bytes) (s : Switch) (up_queue queue : List Bytes)
    → Alone s up_queue queue
    → 14 ≤ length frame
    → is_multicast (slice 0 6 frame) ≡ true
    → forward now local frame s ≡ (
      record { port = uplink; sink = 0; frame = frame } ∷ [],
      learn now (slice 6 12 frame) local s,
    )
broadcast_up now frame s up_queue queue alone long m =
    forward_multicast now local frame s long m
    ∙ flood-local (learned now local frame s) up_queue queue
        (learn-Alone now (slice 6 12 frame) local s up_queue queue alone) frame

-- A frame of the netstack for an address known at the guest's port, or for several, is handed to the guest.
answer_down :
    (now : ℕ) (reply mac : Bytes) (s : Switch) (up_queue queue : List Bytes)
    → Alone s up_queue queue
    → 14 ≤ length reply
    → slice 6 12 reply ≢ mac
    → lookup mac s.macs ≡ some (record { port = local; seen = now })
    → (slice 0 6 reply ≡ mac) ⊎ (is_multicast (slice 0 6 reply) ≡ true)
    → forward now uplink reply s ≡ (
      record { port = local; sink = 1; frame = reply } ∷ [],
      learn now (slice 6 12 reply) uplink s,
    )
answer_down now reply mac s up_queue queue alone long ne known whom =
    let s1 = learned now uplink reply s in
    let alone1 = learn-Alone now (slice 6 12 reply) uplink s up_queue queue alone in
    elim (Bool-cases (is_multicast (slice 0 6 reply))) [
      | inl many ↦
          forward_multicast now uplink reply s long many
          ∙ flood-uplink s1 up_queue queue alone1 reply
      | inr one ↦
          let to : slice 0 6 reply ≡ mac = elim whom [
            | inl e ↦ e
            | inr many ↦ absurd (ground arith)
          ] in
          let there : lookup (slice 0 6 reply) s1.macs
              ≡ some (record { port = local; seen = now }) =
            rw to (learn-other now (slice 6 12 reply) mac uplink s ne ∙ known) in
          let hit : found now uplink reply s ≡ (some local, s1) =
            lookup_mac-fresh now (slice 0 6 reply) _ s1 there (omega arith) in
          forward_known now uplink reply s long local one (ap (λ r. r.0) hit) local_not_uplink
          ∙ ap (λ r. emit local reply r.1) hit
          ∙ emit-local s1 up_queue queue alone1 reply
    ]

module _ {ℓ} (h : Headers) (m : Messages {ℓ}) (o : Options m.Text) (server_mac : Bytes) where
  module _ (now : ℕ) (own : Bytes → Bool) (send_ok : Bool) where
    answered_lem :
        (frame reply : Bytes) (s s2 : Switch) (u u' : Uplink)
        → Uplinks.send_frame h m o server_mac now own send_ok [] frame u ≡ (answered reply, u')
        → forward now uplink reply s ≡ (record { port = local; sink = 1; frame = reply } ∷ [], s2)
        → full h m o server_mac now own send_ok
            (record { port = uplink; sink = 0; frame = frame } ∷ [])
            (record { switch = s; sink = netstack u })
          ≡ (to_guest reply ∷ [], record { switch = s2; sink = netstack u' })
    unfolding full flat run_sink port_frame uplink_frame settle
    answered_lem frame reply s s2 u u' served down =
        rw (served, uplink_frame) (rw (down, settle) refl)

    -- A guest that is alone with the netstack and broadcasts a frame that the DHCP server answers, to the
    -- guest's own address or to several, gets that answer, and nothing else is delivered. The server's
    -- state is kept, and the switch knows both addresses.
    pub arrive_dhcp :
        (frame reply : Bytes) (s : Switch) (up_queue queue : List Bytes) (u u' : Uplink)
        → Alone s up_queue queue
        → 14 ≤ length frame
        → is_multicast (slice 0 6 frame) ≡ true
        → is_multicast (slice 6 12 frame) ≡ false
        → Uplinks.send_frame h m o server_mac now own send_ok [] frame u ≡ (answered reply, u')
        → 14 ≤ length reply
        → slice 6 12 reply ≢ slice 6 12 frame
        → (slice 0 6 reply ≡ slice 6 12 frame) ⊎ (is_multicast (slice 0 6 reply) ≡ true)
        → arrive h m o server_mac now own send_ok 2 local frame
            (record { switch = s; sink = netstack u })
          ≡ some (
            to_guest reply ∷ [],
            record {
              switch = learn now (slice 6 12 reply) uplink (learn now (slice 6 12 frame) local s);
              sink = netstack u';
            },
          )
    arrive_dhcp frame reply s up_queue queue u u' alone long many one served long' ne whom =
        let mac = slice 6 12 frame in
        let s1 = learn now mac local s in
        let up = broadcast_up now frame s up_queue queue alone long many in
        let known : lookup mac s1.macs ≡ some (record { port = local; seen = now }) =
          learn-macs now mac mac local s one ∙ rw (bytes_beq_self mac) refl in
        let down =
          answer_down now reply mac s1 up_queue queue
            (learn-Alone now mac local s up_queue queue alone) long' ne known whom in
        arrive-full h m o server_mac now own send_ok 0 local frame
          (record { switch = s; sink = netstack u })
        ∙ rw up (ap some (answered_lem frame reply s1 _ u u' served down))
