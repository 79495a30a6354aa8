-- ===== src/Hub/Depth.antt =====
-- A frame is dealt with in two calls: what a sink hands to the switch makes no sink call it again.
use uml_kernel_build.Common.{
  ℕ, zero, suc, ◌+◌, ◌≡◌, ◌≢◌, refl, Bool, some, List, [], ◌∷◌, ◌++◌, arith, nat_eq, bytes_eq, All,
  Bytes,
}
use uml_kernel_build.Headers.{Headers}
use uml_kernel_build.Dhcp.Server.{Messages, Options}
use uml_kernel_build.Uplink as Uplinks
use uml_kernel_build.Uplink.{Uplink, Fate, crashed, shed, injected, answered, relayed}
use uml_kernel_build.Switch.{pos, negsuc, Port, uplink, Sent, forward}
use uml_kernel_build.Switch.Frames.{forward_no_echo}
use uml_kernel_build.Hub.{
  Delivered, UplinkSink, blackhole, tap_device, netstack, Hub, settle, uplink_frame, port_frame,
  run_sink, each, deliver, arrive,
}

-- None of the frames goes to the netstack's port.
abbrev pub NoUplink : List Sent → Type 0
NoUplink sents = All (λ (x : Sent). x.port ≢ uplink) sents

module _ {ℓ} (h : Headers) (m : Messages {ℓ}) (o : Options m.Text) (server_mac : Bytes) where
  module _ (now : ℕ) (own : Bytes → Bool) (send_ok : Bool) where
    abbrev run : Sent → Hub → List Delivered × List Sent × Hub
    run x hub = run_sink h m o server_mac now own send_ok x hub

    settle-NoUplink :
        (frame : Bytes) (fate : Fate) (hub : Hub)
        → NoUplink (settle h m o server_mac now own send_ok frame fate hub).1
    unfolding settle
    settle-NoUplink frame crashed hub = tt
    settle-NoUplink frame shed hub = tt
    settle-NoUplink frame injected hub = tt
    settle-NoUplink frame (relayed packets) hub = tt
    settle-NoUplink frame (answered reply) hub = (forward_no_echo now uplink reply hub.switch).0

    uplink_frame-NoUplink :
        (sink : UplinkSink) (frame : Bytes) (hub : Hub)
        → NoUplink (uplink_frame h m o server_mac now own send_ok sink frame hub).1
    unfolding uplink_frame
    uplink_frame-NoUplink blackhole frame hub = tt
    uplink_frame-NoUplink tap_device frame hub = tt
    uplink_frame-NoUplink (netstack u) frame hub =
        let r = Uplinks.send_frame h m o server_mac now own send_ok [] frame u in
        settle-NoUplink frame r.0 (record hub { sink = netstack r.1 })

    port_frame-NoUplink :
        (p : Port) (frame : Bytes) (hub : Hub)
        → NoUplink (port_frame h m o server_mac now own send_ok p frame hub).1
    unfolding port_frame
    port_frame-NoUplink (pos n) frame hub = tt
    port_frame-NoUplink (negsuc zero) frame hub = uplink_frame-NoUplink hub.sink frame hub
    port_frame-NoUplink (negsuc (suc n)) frame hub = tt

    -- What a sink hands to the switch never comes back to the netstack's port.
    run-NoUplink : (x : Sent) (hub : Hub) → NoUplink (run x hub).1
    unfolding run_sink
    run-NoUplink x hub = port_frame-NoUplink x.port x.frame hub

    port_frame_other :
        (p : Port) (frame : Bytes) (hub : Hub)
        → p ≢ uplink
        → (port_frame h m o server_mac now own send_ok p frame hub).1 ≡ []
    unfolding port_frame
    port_frame_other (pos n) frame hub ne = refl
    port_frame_other (negsuc zero) frame hub ne = absurd (ne refl)
    port_frame_other (negsuc (suc n)) frame hub ne = refl

    -- Another port's sink calls nothing.
    run_other : (x : Sent) (hub : Hub) → x.port ≢ uplink → (run x hub).1 ≡ []
    unfolding run_sink
    run_other x hub ne = port_frame_other x.port x.frame hub ne

    -- What is delivered where no sink calls the switch.
    unfoldable pub flat : List Sent → Hub → List Delivered × Hub
    flat [] hub = ([], hub)
    flat (x ∷ sents) hub =
        let (out, calls, hub1) = run x hub in
        let (rest, hub2) = flat sents hub1 in (out ++ rest, hub2)

    -- The same where the frames that the sinks hand to the switch are delivered flatly, each before the
    -- next frame.
    unfoldable pub full : List Sent → Hub → List Delivered × Hub
    full [] hub = ([], hub)
    full (x ∷ sents) hub =
        let (out, calls, hub1) = run x hub in
        let (more, hub2) = flat calls hub1 in
        let (rest, hub3) = full sents hub2 in (out ++ (more ++ rest), hub3)

    deliver-nil :
        (depth : ℕ) (hub : Hub)
        → deliver h m o server_mac now own send_ok depth [] hub ≡ some ([], hub)
    unfolding deliver each
    deliver-nil zero hub = refl
    deliver-nil (suc depth) hub = refl

    deliver-flat :
        (depth : ℕ) (sents : List Sent) (hub : Hub)
        → NoUplink sents
        → deliver h m o server_mac now own send_ok (suc depth) sents hub ≡ some (flat sents hub)
    unfolding deliver each flat
    deliver-flat depth [] hub other = refl
    deliver-flat depth (x ∷ sents) hub (here, more) =
        let quiet = run_other x hub here in
        let hub1 = (run x hub).2 in
        rw (quiet, each)
          (rw (deliver-nil depth hub1) (rw (deliver-flat depth sents hub1 more) refl))

    deliver-full :
        (depth : ℕ) (sents : List Sent) (hub : Hub)
        → deliver h m o server_mac now own send_ok (suc (suc depth)) sents hub
          ≡ some (full sents hub)
    unfolding deliver each full
    deliver-full depth [] hub = refl
    deliver-full depth (x ∷ sents) hub =
        let r = run x hub in
        let inner = deliver-flat depth r.1 r.2 (run-NoUplink x hub) in
        let hub2 = (flat r.1 r.2).1 in rw (inner, each) (rw (deliver-full depth sents hub2) refl)

    -- What arrives, at any depth from two on.
    pub arrive-full :
        (depth : ℕ) (from : Port) (frame : Bytes) (hub : Hub)
        → arrive h m o server_mac now own send_ok (suc (suc depth)) from frame hub
          ≡ some (
              full
                (forward now from frame hub.switch).0
                (record hub { switch = (forward now from frame hub.switch).1 }))
    unfolding arrive
    arrive-full depth from frame hub = deliver-full depth (forward now from frame hub.switch).0 _

    -- A frame that arrives at any port is dealt with in two levels of calls, whatever state the instance is
    -- in: a sink may hand a frame to the switch, but no sink that this one reaches does so again. More
    -- depth changes nothing.
    pub arrive_two :
        (depth : ℕ) (from : Port) (frame : Bytes) (hub : Hub)
        → (r : List Delivered × Hub) × (arrive h m o server_mac now own send_ok 2 from frame hub
            ≡ some r)
          × (arrive h m o server_mac now own send_ok (2 + depth) from frame hub ≡ some r)
    arrive_two depth from frame hub =
        let more : suc (suc depth) ≡ 2 + depth = omega arith in
        (_, arrive-full 0 from frame hub, rw (← more) (arrive-full depth from frame hub))
