-- ===== src/Tests/Histories.antt =====
-- The switch against its history at concrete inputs.
use uml_kernel_build.Common.{◌≤◌, ◌≡◌, refl, List, [], ◌∷◌, ◌++◌, arith, nat_eq, bytes_eq, Bytes}
use uml_kernel_build.Switch.{uplink, local, Switch, new, add_port, is_multicast, forward}
use uml_kernel_build.Switch.History.{
  Event, arrived, left, clock, where_is, decide, directed, flooded, kept, carry, Runs, begin,
  register, arrive, teaches, unless_at, route,
}
use uml_kernel_build.Switch.History.Refines
use uml_kernel_build.Switch.History.Refines.{SameSent}

abbrev mac_a : Bytes
mac_a = 2 ∷ 0 ∷ 0 ∷ 0 ∷ 0 ∷ 1 ∷ []

abbrev mac_b : Bytes
mac_b = 2 ∷ 0 ∷ 0 ∷ 0 ∷ 0 ∷ 2 ∷ []

abbrev hello : Bytes
hello = mac_b ++ (mac_a ++ (8 ∷ 0 ∷ []))

abbrev back : Bytes
back = mac_a ++ (mac_b ++ (8 ∷ 0 ∷ []))

abbrev history : List Event
history = arrived 5 local hello ∷ []

abbrev two_ports : Switch
two_ports = (forward 5 local hello (add_port local 2 (add_port uplink 1 new))).1

two_ports-Runs : Runs history two_ports
unfolding clock
two_ports-Runs = arrive 5 local hello (register local 2 (register uplink 1 begin)) (omega arith)

knows : decide 6 uplink back history ≡ directed local
unfolding decide where_is teaches route is_multicast
knows = refl

forgets : decide 6 uplink back (left local ∷ history) ≡ flooded
unfolding decide where_is teaches route is_multicast unless_at
forgets = refl

hairpin : decide 6 local back history ≡ kept
unfolding decide where_is teaches route is_multicast
hairpin = refl

later : clock history ≤ 6
unfolding clock
later = omega arith

forward-decide_example :
    SameSent
      (forward 6 uplink back two_ports)
      (carry (decide 6 uplink back history) uplink back two_ports)
forward-decide_example = Refines.forward-decide 6 uplink back history two_ports two_ports-Runs later
