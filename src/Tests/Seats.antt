-- ===== src/Tests/Seats.antt =====
-- A hub that takes the seat, and one that follows it.
use uml_kernel_build.Common.{
  ℕ, ◌≡◌, ◌⊎◌, refl, true, false, some, [], ◌∷◌, ◌++◌, arith, nat_eq, bytes_eq,
}
use uml_kernel_build.Fleet.{
  discovering, seated, cleared, hub, gone, World, set_phase, try_lock, listening, release, shutdown,
  probe, bind, start, sit, probe_path, bind_path, crash, Reach, begin, next,
}
use uml_kernel_build.Fleet.Progress
use uml_kernel_build.Fleet.Progress.{Steps}
use uml_kernel_build.Fleet.Seat
use uml_kernel_build.Fleet.Calls
use uml_kernel_build.Fleet.Calls.{path_of, take_path}
use uml_kernel_build.Unixseq.{Identity, joined, listens, bind_or_connect}
use uml_kernel_build.Unixseq.Bind.{alone}
use uml_kernel_build.Unixseq.Close.{own_listener}
use uml_kernel_build.Elect.{is_beacon}
use uml_kernel_build.Fleet.Peer.{PeerState}
use uml_kernel_build.Fleet.Peer.Run
use uml_kernel_build.Fleet.Peer.Run.{
  Input, hub_frame, tick, silent, run_peer, guest_frames, IsQuiet,
}
use uml_kernel_build.Common.{List, none, replicate, if◌then◌else◌}
use uml_kernel_build.Hub.Shutdown
use uml_kernel_build.Hub.Shutdown.{
  Running, natted, user_signal, terminated, close_listener, drop_seat, exit, local_effects,
  end_instance, act_all,
}
use uml_kernel_build.Fleet.Seat.{holds}

-- Instance 7 promotes, and dies; instance 3 clears the stale file and takes its place.
abbrev after_takeover : World
unfolding start try_lock release shutdown probe bind listening
after_takeover = bind 3 (
    probe 3
      (record (release 7 gone (
        bind 7
          (probe 7 (record start { lock = some 7; phase = set_phase 7 seated start.phase })))) {
            lock = some 3;
            phase = set_phase 3 seated (
                set_phase 7 gone
                  (set_phase 7 hub (set_phase 7 cleared (set_phase 7 seated start.phase))));
          }))

took_over : Reach after_takeover
unfolding after_takeover
took_over =
    next
      (next
        (next
          (next (next (next (next begin (sit 7 refl refl)) (probe_path 7 refl)) (bind_path 7 refl))
            (crash 7))
          (sit 3 refl refl))
        (probe_path 3 refl))
      (bind_path 3 refl)

one_hub_example :
    ◌≡◌ {A = ℕ} 3 3
    × (after_takeover.lock ≡ some 3)
    × ((Seat.is_hub (after_takeover.phase 3) ≡ false) ⊎ (after_takeover.file ≡ some 3))
unfolding after_takeover
one_hub_example = Seat.one_hub 3 3 took_over refl refl

-- Instance 7 was the hub and died; its socket file is still there.
abbrev after_crash : World
unfolding start release probe bind listening
after_crash =
    release 7 gone
      (bind 7 (probe 7 (record start { lock = some 7; phase = set_phase 7 seated start.phase })))

crashed : Reach after_crash
unfolding after_crash try_lock
crashed =
    next (next (next (next begin (sit 7 refl refl)) (probe_path 7 refl)) (bind_path 7 refl))
      (crash 7)

vacant : (j : ℕ) → holds (after_crash.phase j) ≡ false
unfolding after_crash
vacant j = ground arith

looking : after_crash.phase 3 ≡ discovering
unfolding after_crash
looking = refl

takeover_example :
    (w' : World) × Steps after_crash w'
    × (w'.phase 3 ≡ hub)
    × (w'.lock ≡ some 3)
    × (w'.file ≡ some 3)
    × ((j : ℕ) → w'.phase j ≡ set_phase 3 hub after_crash.phase j)
takeover_example = Progress.takeover 3 crashed looking vacant

abbrev with_tunnel : Running
with_tunnel = natted true true

end_instance-shutdown_example :
    (end_instance with_tunnel true (user_signal ∷ terminated ∷ [])
      ≡ some (
          local_effects with_tunnel (user_signal ∷ []) ++ (close_listener ∷ drop_seat ∷ exit ∷ [])))
    × (act_all 3
          (local_effects with_tunnel (user_signal ∷ []) ++ (close_listener ∷ drop_seat ∷ exit ∷ []))
          after_takeover
        ≡ shutdown 3 after_takeover)
    × (listening (
          act_all 3
            (local_effects with_tunnel (user_signal ∷ []) ++ (close_listener ∷ []))
            after_takeover)
        ≡ false)
    × ((act_all 3
          (local_effects with_tunnel (user_signal ∷ []) ++ (close_listener ∷ []))
          after_takeover).lock
        ≡ some 3)
unfolding after_takeover
end_instance-shutdown_example =
    Shutdown.end_instance-shutdown 3 after_takeover with_tunnel (user_signal ∷ []) [] terminated
      took_over refl (refl, tt) refl

abbrev numbered : ℕ → Identity
numbered i = record { ino = i; dev = 1 }

-- Instance 3 has taken the seat, and the socket file of instance 7 is stale.
abbrev contender : World
unfolding after_crash
contender = record after_crash { lock = some 3; phase = set_phase 3 seated after_crash.phase }

bind_or_connect-take_path_example :
    ((bind_or_connect (numbered 3) 0 alone (path_of numbered contender)).0
      ≡ (if listening contender then joined else listens 384 (own_listener (numbered 3))))
    × ((bind_or_connect (numbered 3) 0 alone (path_of numbered contender)).1.entry
        ≡ path_of numbered (take_path numbered 3 contender))
unfolding contender
bind_or_connect-take_path_example = Calls.bind_or_connect-take_path numbered 3 0 contender refl

abbrev seen : List Input
seen = hub_frame 5 (replicate 14 2) true ∷ tick 1_000_000_000 ∷ []

abbrev listener : PeerState
listener = record { saw_beacon = false; last_beacon = 0; leases = [] }

run_peer_verdict_example :
    (run_peer
        (seen ++ (tick 3_000_000_008 ∷ []))
        (record listener { saw_beacon = true; last_beacon = 7 })
      ≡ record {
        to_guest = guest_frames seen;
        ended = some silent;
        state = record listener { saw_beacon = true; last_beacon = 7 };
      })
    × (run_peer (seen ++ (tick 3_000_000_008 ∷ [])) (record listener { saw_beacon = false })
        ≡ record {
          to_guest = guest_frames seen;
          ended = none;
          state = record listener { saw_beacon = false };
        })
unfolding IsQuiet is_beacon
run_peer_verdict_example =
    Run.run_peer_verdict seen [] 7 3_000_000_008 listener ((refl, refl), (omega arith, tt))
      (omega arith)
