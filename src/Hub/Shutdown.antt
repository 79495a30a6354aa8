-- ===== src/Hub/Shutdown.antt =====
-- The end of an instance: `waitShutdown`, `dumpStats` and the last lines of `runInstance` of
-- vdeplug-go/main.go.
use uml_kernel_build.Common.{
  ℕ, zero, suc, ◌≡◌, refl, sym, ap, ◌∙◌, Bool, true, false, Option, none, some, List, [], ◌∷◌, ◌++◌,
  append_assoc, arith, if◌then◌else◌, nat_eq, bytes_eq, length, replicate, All, All-append,
}
use uml_kernel_build.Fleet.{
  World, hub, gone, set_phase, drop_lock, release, shutdown, listening, Reach,
}
use uml_kernel_build.Fleet.Seat.{hub_owns}

-- What `waitShutdown` selects on: the guest's wire or the pump of the netstack failed, or a signal came.
pub data Notice : Type 0 where
  guest_gone pump_gone terminated user_signal : Notice

-- What the instance runs on its uplink; with the netstack there may be a tunnel and a lease pool.
pub data Running : Type 0 where
  isolated tapped : Running
  natted : (tunnel pool : Bool) → Running

-- The calls that others can see. `log_lines` is a number of lines of statistics.
pub data Effect : Type 0 where
  log_lines : (n : ℕ) → Effect
  close_nat close_tunnel close_tap close_listener drop_seat exit : Effect

unfoldable pub dump_stats : Running → Effect
dump_stats isolated = log_lines 1
dump_stats tapped = log_lines 1
dump_stats (natted _ pool) = if pool then log_lines 4 else log_lines 3

unfoldable pub close_stack : Running → List Effect
close_stack isolated = []
close_stack tapped = []
close_stack (natted _ _) = close_nat ∷ []

-- `shutdownUplink`, which closes the netstack a second time.
unfoldable pub shutdown_uplink : Running → List Effect
shutdown_uplink isolated = []
shutdown_uplink tapped = close_tap ∷ []
shutdown_uplink (natted tunnel _) = if tunnel then close_tunnel ∷ close_nat ∷ [] else close_nat ∷ []

-- With what was done before it returned; none while it still waits.
unfoldable pub wait_shutdown : Running → List Notice → Option (List Effect)
unfolding dump_stats close_stack
wait_shutdown u [] = none
wait_shutdown u (user_signal ∷ notices) = elim (wait_shutdown u notices) [
  | none ↦ none
  | some done ↦ some (dump_stats u ∷ done)
]
wait_shutdown u (_ ∷ notices) = some (close_stack u)

-- `is_hub` is whether the instance has the switch's listener.
unfoldable pub leave : Bool → List Effect
leave is_hub = if is_hub then close_listener ∷ drop_seat ∷ exit ∷ [] else exit ∷ []

unfoldable pub end_instance : Running → Bool → List Notice → Option (List Effect)
unfolding wait_shutdown shutdown_uplink leave
end_instance u is_hub notices = elim (wait_shutdown u notices) [
  | none ↦ none
  | some done ↦ some (done ++ (shutdown_uplink u ++ leave is_hub))
]

-- What an effect of instance `i` does to the lock, the socket file and the instance.
unfoldable pub act : ℕ → Effect → World → World
unfolding drop_lock
act i close_listener w = record w { file = drop_lock i w.file }
act i drop_seat w = record w { lock = drop_lock i w.lock }
act i exit w = record w { phase = set_phase i gone w.phase }
act i _ w = w

unfoldable pub act_all : ℕ → List Effect → World → World
unfolding act
act_all i [] w = w
act_all i (x ∷ xs) w = act_all i xs (act i x w)

act_all-append :
    (i : ℕ) (xs ys : List Effect) (w : World)
    → act_all i (xs ++ ys) w ≡ act_all i ys (act_all i xs w)
unfolding act_all
act_all-append i [] ys w = refl
act_all-append i (x ∷ xs) ys w = act_all-append i xs ys (act i x w)

-- The calls that stay within the instance.
abbrev pub is_inner : Effect → Bool
is_inner close_listener = false
is_inner drop_seat = false
is_inner exit = false
is_inner _ = true

act_all-inner :
    (i : ℕ) (xs : List Effect) (w : World) → All (λ x. is_inner x ≡ true) xs → act_all i xs w ≡ w
unfolding act_all act
act_all-inner i [] w h = refl
act_all-inner i (log_lines n ∷ xs) w h = act_all-inner i xs w h.1
act_all-inner i (close_nat ∷ xs) w h = act_all-inner i xs w h.1
act_all-inner i (close_tunnel ∷ xs) w h = act_all-inner i xs w h.1
act_all-inner i (close_tap ∷ xs) w h = act_all-inner i xs w h.1
act_all-inner i (close_listener ∷ xs) w h = cc h.0
act_all-inner i (drop_seat ∷ xs) w h = cc h.0
act_all-inner i (exit ∷ xs) w h = cc h.0

shutdown_uplink-inner : (u : Running) → All (λ x. is_inner x ≡ true) (shutdown_uplink u)
unfolding shutdown_uplink
shutdown_uplink-inner isolated = tt
shutdown_uplink-inner tapped = (refl, tt)
shutdown_uplink-inner (natted tunnel pool) = ground arith

abbrev pub is_user_signal : Notice → Bool
is_user_signal user_signal = true
is_user_signal _ = false

dump_stats-inner : (u : Running) → is_inner (dump_stats u) ≡ true
unfolding dump_stats
dump_stats-inner isolated = refl
dump_stats-inner tapped = refl
dump_stats-inner (natted tunnel pool) = ground arith

close_stack-inner : (u : Running) → All (λ x. is_inner x ≡ true) (close_stack u)
unfolding close_stack
close_stack-inner isolated = tt
close_stack-inner tapped = tt
close_stack-inner (natted tunnel pool) = (refl, tt)

wait_shutdown_ends :
    (u : Running) (before after : List Notice) (x : Notice)
    → All (λ n. is_user_signal n ≡ true) before
    → is_user_signal x ≡ false
    → wait_shutdown u (before ++ (x ∷ after))
      ≡ some (replicate (length before) (dump_stats u) ++ close_stack u)
unfolding wait_shutdown
wait_shutdown_ends u [] after guest_gone h stop = refl
wait_shutdown_ends u [] after pump_gone h stop = refl
wait_shutdown_ends u [] after terminated h stop = refl
wait_shutdown_ends u [] after user_signal h stop = cc
wait_shutdown_ends u (user_signal ∷ before) after x h stop =
    rw (wait_shutdown_ends u before after x h.1 stop) refl
wait_shutdown_ends u (guest_gone ∷ before) after x h stop = cc h.0
wait_shutdown_ends u (pump_gone ∷ before) after x h stop = cc h.0
wait_shutdown_ends u (terminated ∷ before) after x h stop = cc h.0

-- What is done before the listener is closed.
pub local_effects : Running → List Notice → List Effect
local_effects u before =
    replicate (length before) (dump_stats u) ++ (close_stack u ++ shutdown_uplink u)

replicate-inner :
    (n : ℕ) (x : Effect) → is_inner x ≡ true → All (λ e. is_inner e ≡ true) (replicate n x)
replicate-inner zero x h = tt
replicate-inner (suc n) x h = (h, replicate-inner n x h)

local_effects-inner :
    (u : Running) (before : List Notice) → All (λ x. is_inner x ≡ true) (local_effects u before)
unfolding local_effects
local_effects-inner u before =
    All-append (λ x. is_inner x ≡ true) (replicate (length before) (dump_stats u)) _
      (replicate-inner (length before) (dump_stats u) (dump_stats-inner u))
      (All-append (λ x. is_inner x ≡ true) (close_stack u) (shutdown_uplink u) (close_stack-inner u)
        (shutdown_uplink-inner u))

end_instance_leaves :
    (u : Running) (before after : List Notice) (x : Notice)
    → All (λ n. is_user_signal n ≡ true) before
    → is_user_signal x ≡ false
    → end_instance u true (before ++ (x ∷ after))
      ≡ some (local_effects u before ++ (close_listener ∷ drop_seat ∷ exit ∷ []))
unfolding end_instance leave local_effects
end_instance_leaves u before after x quiet stop =
    let logs = replicate (length before) (dump_stats u) in
    let last = close_listener ∷ drop_seat ∷ exit ∷ [] in
    rw (wait_shutdown_ends u before after x quiet stop, end_instance)
      (ap some (
        append_assoc logs (close_stack u) (shutdown_uplink u ++ last)
        ∙ ap (◌++◌ logs) (sym (append_assoc (close_stack u) (shutdown_uplink u) last))
        ∙ sym (append_assoc logs (close_stack u ++ shutdown_uplink u) last)))

-- A hub of any run ends at the first notice that is not SIGUSR1; each SIGUSR1 before it only makes it
-- log its statistics. What the other instances see of all its calls together is one shutdown: the
-- lock and the socket file are given up. When the listener is closed the file is gone, so that nobody
-- answers at the path, and the seat is still this instance's.
pub end_instance-shutdown :
    (i : ℕ) (w : World) (u : Running) (before after : List Notice) (x : Notice)
    → Reach w
    → w.phase i ≡ hub
    → All (λ n. is_user_signal n ≡ true) before
    → is_user_signal x ≡ false
    → (end_instance u true (before ++ (x ∷ after))
        ≡ some (local_effects u before ++ (close_listener ∷ drop_seat ∷ exit ∷ [])))
      × (act_all i (local_effects u before ++ (close_listener ∷ drop_seat ∷ exit ∷ [])) w
          ≡ shutdown i w)
      × (listening (act_all i (local_effects u before ++ (close_listener ∷ [])) w) ≡ false)
      × ((act_all i (local_effects u before ++ (close_listener ∷ [])) w).lock ≡ some i)
unfolding act_all act shutdown release listening drop_lock
end_instance-shutdown i w u before after x r h quiet stop =
    let inner = local_effects-inner u before in
    let seat = hub_owns i r h in
    let closed : drop_lock i w.file ≡ none = rw (seat.1, drop_lock) (ground arith) in
    let start : (ys : List Effect) → act_all i (local_effects u before ++ ys) w ≡ act_all i ys w =
      λ ys.
        act_all-append i (local_effects u before) ys w
        ∙ ap (act_all i ys) (act_all-inner i (local_effects u before) w inner) in
    (
      end_instance_leaves u before after x quiet stop,
      start (close_listener ∷ drop_seat ∷ exit ∷ []),
      rw (start (close_listener ∷ [])) (rw (closed, listening) refl),
      rw (start (close_listener ∷ [])) seat.0,
    )
