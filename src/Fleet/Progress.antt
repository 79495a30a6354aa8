-- ===== src/Fleet/Progress.antt =====
-- Failover makes progress: a seat that nobody holds can be taken, and no stale lock or socket file is
-- in the way.
use uml_kernel_build.Common.{
  ℕ, ◌≡◌, inl, inr, refl, true, false, none, some, arith, Option-cases, nat_eq, bytes_eq,
}
use uml_kernel_build.Fleet.{
  Phase, discovering, peer, seated, cleared, hub, gone, World, set_phase, try_lock, drop_lock,
  listening, release, shutdown, probe, bind, start, Step, join, lose, sit, probe_path, bind_path,
  stop, crash, Reach, begin, next,
}
use uml_kernel_build.Fleet.Seat.{holds, is_hub}

-- A lock is never left behind: its owner is in a phase that holds the seat.
abbrev Owned : World → Type 0
Owned w = (i : ℕ) → w.lock ≡ some i → holds (w.phase i) ≡ true

Step-Owned : {w w' : World} → Step w w' → Owned w → Owned w'
unfolding try_lock drop_lock release shutdown probe bind
Step-Owned {w} (join i p l) v = λ j h. ground (arith, v j)
Step-Owned {w} (lose i p) v = λ j h. ground (arith, v j)
Step-Owned {w} (sit i p l) v = λ j h. ground (arith, v j)
Step-Owned {w} (probe_path i p) v = λ j h. ground (arith, v j)
Step-Owned {w} (bind_path i p) v = λ j h. ground (arith, v j)
Step-Owned {w} (stop i p) v = λ j h. ground (arith, v j)
Step-Owned {w} (crash i) v = λ j h. ground (arith, v j)

Reach-Owned : {w : World} → Reach w → Owned w
unfolding start
Reach-Owned begin = λ i h. cc
Reach-Owned (next r st) = Step-Owned st (Reach-Owned r)

-- The steps from one state to another.
pub data Steps (w : World) : World → Type 0 where
  here : Steps w w
  extend : {u v : World} → Steps w u → Step u v → Steps w v

not_hub : (a : Phase) → holds a ≡ false → is_hub a ≡ false
not_hub discovering h = refl
not_hub peer h = refl
not_hub seated h = refl
not_hub cleared h = refl
not_hub hub h = cc
not_hub gone h = refl

-- After any history of joins, promotions and crashes, while nobody holds the seat, an instance that is
-- looking for a hub becomes the hub by steps that leave every other instance in its phase: neither the
-- lock of a dead hub nor its socket file stops it.
pub takeover :
    {w : World} (i : ℕ)
    → Reach w
    → w.phase i ≡ discovering
    → ((j : ℕ) → holds (w.phase j) ≡ false)
    → (w' : World) × Steps w w'
      × (w'.phase i ≡ hub)
      × (w'.lock ≡ some i)
      × (w'.file ≡ some i)
      × ((j : ℕ) → w'.phase j ≡ set_phase i hub w.phase j)
takeover {w} i r looking vacant =
    let owned = Reach-Owned r in
    let free : w.lock ≡ none = elim (Option-cases w.lock) [
      | inl e ↦ e
      | inr (j, e) ↦ absurd (ground (arith, owned j e, vacant j))
    ] in
    let w1 : World = record w { lock = some i; phase = set_phase i seated w.phase } in
    let sits : try_lock i w ≡ some w1 = unfold try_lock in rw free refl in
    let deaf : listening w1 ≡ false = elim (Option-cases w.file) [
      | inl e ↦ unfold listening in rw e refl
      | inr (j, e) ↦
          let quiet : is_hub (w1.phase j) ≡ false =
            ground (arith, not_hub (w.phase j) (vacant j)) in
          unfold listening in rw e quiet
    ] in
    let w2 : World = record w1 { file = none; phase = set_phase i cleared w1.phase } in
    let clears : probe i w1 ≡ w2 = unfold probe in rw deaf refl in
    let w3 : World = record w2 { file = some i; phase = set_phase i hub w2.phase } in
    let seat : Step w1 (probe i w1) = probe_path i (ground arith) in
    let clearing : Step w1 w2 = rw clears at seat in
    let binds : bind i w2 ≡ w3 = unfold bind in refl in
    let bound : Step w2 (bind i w2) = bind_path i (ground arith) in
    let binding : Step w2 w3 = rw binds at bound in
    (
      w3,
      extend (extend (extend here (sit i looking sits)) clearing) binding,
      ground arith,
      refl,
      refl,
      λ j. ground arith,
    )
