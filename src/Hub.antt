-- ===== src/Hub.antt =====
-- One instance of vdeplug-go/main.go (`runInstance`): the switch with the sinks behind its ports.
pub mod Depth
pub mod Dhcp
pub mod Leases
pub mod Heartbeat
pub mod Shutdown
pub mod Guests
pub mod Forwards
pub mod Joining
pub mod Setup
pub mod Owned
use uml_kernel_build.Common.{
  ◌||◌, ℕ, zero, suc, Bool, true, false, Option, none, some, List, [], ◌∷◌, ◌++◌, ltb, ◌==◌,
  if◌then◌else◌, nat_eq, bytes_eq, length, Bytes, codes, bytes_beq, Dict,
}
use uml_kernel_build.Headers.{Headers}
use uml_kernel_build.Config.Strings.{Text, cut_prefix}
use uml_kernel_build.Dhcp.Pool.{Pool, new_pool, restore, first}
use uml_kernel_build.Dhcp.Subnet.{usable_leases}
use uml_kernel_build.Dhcp.Server.{Messages, Options}
use uml_kernel_build.Uplink as Uplinks
use uml_kernel_build.Uplink.{Uplink, Fate, crashed, shed, injected, answered, relayed}
use uml_kernel_build.Switch as Switches
use uml_kernel_build.Switch.{
  pos, negsuc, Port, uplink, local, Switch, Sent, forward, add_port, add_peer,
}

-- The uplink that the configuration names; `none` is the fatal error.
pub data Kind : Type 0 where
  isolated : Kind
  tap : (name : Text) → Kind
  slirp : (wireguard : Bool) → Kind

unfoldable pub tap_name : Text → Text
unfolding cut_prefix
tap_name cfg = elim (cut_prefix (codes "tap:") cfg) [
  | none ↦ codes "tap0"
  | some rest ↦ if length rest == 0 then codes "tap0" else rest
]

unfoldable pub uplink_kind : Text → Option Kind
unfolding tap_name cut_prefix
uplink_kind cfg =
    let is_tap = elim (cut_prefix (codes "tap") cfg) as (λ _. Bool) [
      | none ↦ false
      | some _ ↦ true
    ] in
    if bytes_beq cfg (codes "none")
    then some isolated
    else if is_tap
    then some (tap (tap_name cfg))
    else if bytes_beq cfg (codes "wireguard")
    then some (slirp true)
    else if bytes_beq cfg (codes "slirp") || (length cfg == 0)
    then some (slirp false)
    else none

-- What `SendFrame` of a port's sink leads to outside the switch.
pub data Delivered : Type 0 where
  to_guest to_netstack to_tap : (frame : Bytes) → Delivered
  to_peer : (n : ℕ) (frame : Bytes) → Delivered
  to_host : (packets : List (Bytes × Bytes)) → Delivered
  panic : Delivered

pub data UplinkSink : Type 0 where
  blackhole tap_device : UplinkSink
  netstack : (u : Uplink) → UplinkSink

pub record Hub : Type 0 where
  pub switch : Switch
  pub sink : UplinkSink

-- The lease pool of an instance. `start` is `net.ParseIP` of the configured start, none if there is none,
-- with its `To4`; `subnet` is as in `usable_leases`. The outer `none` is a panic.
unfoldable pub lease_pool :
    Option (Option Bytes × Bytes) → Option (Option Bytes) → Dict Bytes Bytes → Option (Option Pool)
unfolding usable_leases new_pool restore
lease_pool subnet none seed = some none
lease_pool subnet (some start4) seed = elim (usable_leases subnet start4 256) [
  | none ↦ none
  | some size ↦
      let p = new_pool start4 size in
      if size == 0
      then some none
      else if ltb 0 (length seed)
      then some (some (restore seed p))
      else some (some p)
]

-- The guest of the port rules that name none: the pool's first client, or the configured start.
unfoldable pub fallback_of : Option Bytes → Option Pool → Option Bytes
unfolding first
fallback_of start none = start
fallback_of start (some p) = elim (first p) [ none ↦ start | some ip ↦ some ip ]

-- The switch of an instance when its two ports are registered; the sinks are 0 and 1.
unfoldable pub ports_of : Switch → Switch
unfolding add_port
ports_of s = add_port local 1 (add_port uplink 0 s)

-- `acceptPeers`: the port of each connection in turn, none for one that is refused and closed.
unfoldable pub accept_peers : List ℕ → Switch → List (Option Port) × Switch
unfolding add_peer
accept_peers [] s = ([], s)
accept_peers (conn ∷ conns) s =
    let (p, s1) = add_peer conn s in let (ps, s2) = accept_peers conns s1 in (p ∷ ps, s2)

module _ {ℓ} (h : Headers) (m : Messages {ℓ}) (o : Options m.Text) (server_mac : Bytes) where
  module _ (now : ℕ) (own : Bytes → Bool) (send_ok : Bool) where
    -- What became of a frame at the netstack's port, with the frames that the switch hands on if the
    -- sink calls `Forward`.
    unfoldable pub settle : Bytes → Fate → Hub → List Delivered × List Sent × Hub
    settle frame crashed hub = (panic ∷ [], [], hub)
    settle frame shed hub = ([], [], hub)
    settle frame injected hub = (to_netstack frame ∷ [], [], hub)
    settle frame (relayed packets) hub = (to_host packets ∷ [], [], hub)
    settle frame (answered reply) hub =
        let (sents, s) = forward now uplink reply hub.switch in
        ([], sents, record hub { switch = s })

    -- A frame that is handed on directly has a buffer of its own length.
    unfoldable pub uplink_frame : UplinkSink → Bytes → Hub → List Delivered × List Sent × Hub
    unfolding settle Uplinks.send_frame
    uplink_frame blackhole frame hub = ([], [], hub)
    uplink_frame tap_device frame hub = (to_tap frame ∷ [], [], hub)
    uplink_frame (netstack u) frame hub =
        let (fate, u') = Uplinks.send_frame h m o server_mac now own send_ok [] frame u in
        settle frame fate (record hub { sink = netstack u' })

    unfoldable pub port_frame : Port → Bytes → Hub → List Delivered × List Sent × Hub
    unfolding uplink_frame
    port_frame (pos n) frame hub = (to_peer n frame ∷ [], [], hub)
    port_frame (negsuc zero) frame hub = uplink_frame hub.sink frame hub
    port_frame (negsuc (suc n)) frame hub = (to_guest frame ∷ [], [], hub)

    -- The `SendFrame` of the sink that is handed the frame.
    unfoldable pub run_sink : Sent → Hub → List Delivered × List Sent × Hub
    unfolding port_frame
    run_sink x hub = port_frame x.port x.frame hub

    unfoldable pub each :
        (List Sent → Hub → Option (List Delivered × Hub))
        → List Sent
        → Hub
        → Option (List Delivered × Hub)
    unfolding run_sink
    each inner [] hub = some ([], hub)
    each inner (x ∷ sents) hub =
        let (out, calls, hub1) = run_sink x hub in
        elim (inner calls hub1) [
          | none ↦ none
          | some (more, hub2) ↦ elim (each inner sents hub2) [
            | none ↦ none
            | some (rest, hub3) ↦ some (out ++ (more ++ rest), hub3)
          ]
        ]

    -- The sinks call `Forward` again, which calls sinks: fuel for the depth.
    unfoldable pub deliver : ℕ → List Sent → Hub → Option (List Delivered × Hub)
    unfolding each
    deliver zero [] hub = some ([], hub)
    deliver zero (x ∷ sents) hub = none
    deliver (suc depth) sents hub = each (deliver depth) sents hub

    -- A frame that arrives at a port.
    unfoldable pub arrive : ℕ → Port → Bytes → Hub → Option (List Delivered × Hub)
    unfolding deliver
    arrive depth from frame hub =
        let (sents, s) = forward now from frame hub.switch in
        deliver depth sents (record hub { switch = s })
