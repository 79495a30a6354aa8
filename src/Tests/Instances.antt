-- ===== src/Tests/Instances.antt =====
-- The start of the helper by the stand-in guest, and the guest's wire, at concrete inputs.
use uml_kernel_build.Common.{
  ◌≡◌, refl, true, false, not, none, some, List, [], ◌∷◌, ◌++◌, map, arith, nat_eq, bytes_eq,
  replicate, Bytes, codes,
}
use uml_kernel_build.Config.{defaults, load, switch_enabled, apply_vnl}
use uml_kernel_build.Config.Overrides.{Without}
use uml_kernel_build.Fleet.Wire as Wires
use uml_kernel_build.Fleet.Wire.{
  Wire, WireEvent, guest_frame, set_peer, wire, long_frames, at_switch, frame_of, hub_takes, rerun,
}
use uml_kernel_build.Guest.Child
use uml_kernel_build.Guest.Child.{child_args}
use uml_kernel_build.Startup.{link_mtu, Routed}
use uml_kernel_build.Startup.Boot.{contend, Process, launch, boot}
use uml_kernel_build.Switch as Switches
use uml_kernel_build.Fleet.Backoff.{
  joined_hub, seat_held, late_hub, waits, waits_from, wait_round, first_backoff, next_backoff, intn,
}

abbrev process : Process
process = record {
  self_dir = some (codes "/opt");
  file = some none;
  env_socket = [];
  tmpdir = [];
  writable = λ dir. true;
  join = λ dir. dir;
}

boot-child_args_example :
    (boot process (child_args (codes "sw"))
      ≡ contend (record defaults { socket = codes "sw" }) (link_mtu defaults.mtu) (codes "sw"))
    × (boot process (child_args (codes "/tmp/s"))
        ≡ launch process (codes "/opt") (apply_vnl (codes "socket=/tmp/s") defaults))
    × ((apply_vnl (codes "socket=/tmp/s") defaults).socket ≡ [])
unfolding defaults load switch_enabled Without
boot-child_args_example =
    Child.boot-child_args process (codes "/opt") defaults 115 (codes "w") (codes "tmp/s") refl refl
      refl (ground arith) (ground arith)

abbrev frame : Bytes
frame = replicate 14 1

abbrev wire_before : List WireEvent
wire_before = guest_frame 1 frame true ∷ set_peer true ∷ guest_frame 2 frame true ∷ []

abbrev wire_after : List WireEvent
wire_after = guest_frame 3 frame true ∷ []

abbrev at_start : Wire
unfolding Switches.new
at_start = record { peer = false; switch = Switches.new }

wire_handover_example :
    (rest : List Routed) × ((wire (wire_before ++ (set_peer false ∷ wire_after)) at_start).0
      ≡ (wire wire_before at_start).0 ++ rest)
    × (map frame_of (wire wire_before at_start).0 ≡ long_frames wire_before)
    × (map (λ r. not (at_switch r)) (wire wire_before at_start).0 ≡ hub_takes false wire_before)
    × (map frame_of rest ≡ long_frames wire_after)
    × (map (λ r. not (at_switch r)) rest ≡ map (λ _. false) (long_frames wire_after))
    × (rerun (wire (wire_before ++ (set_peer false ∷ wire_after)) at_start).0 Switches.new ≡ (
      (wire (wire_before ++ (set_peer false ∷ wire_after)) at_start).0,
      (wire (wire_before ++ (set_peer false ∷ wire_after)) at_start).1.switch,
    ))
unfolding at_start Switches.new
wire_handover_example = Wires.wire_handover wire_before wire_after at_start (refl, tt)

-- The first frame is the switch's, the second the hub's.
first_alone : hub_takes false wire_before ≡ false ∷ true ∷ []
unfolding hub_takes
first_alone = refl

-- Nanoseconds: the back-off doubles, and starts again with the next hub.
waited :
    waits (seat_held 0 ∷ seat_held 0 ∷ joined_hub 3 ∷ seat_held 0 ∷ late_hub ∷ [])
    ≡ 250_000_001 ∷ 500_000_001 ∷ 3_000_000 ∷ 250_000_001 ∷ 0 ∷ []
unfolding waits waits_from wait_round first_backoff next_backoff intn
waited = refl
