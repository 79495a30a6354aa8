-- ===== src/Fleet/Seat.antt =====
-- Split-brain is impossible: at most one instance is past the lock, and the socket file is its own.
use uml_kernel_build.Common.{
  ℕ, ◌≡◌, ◌⊎◌, inl, inr, Bool-cases, refl, Bool, true, false, some, arith, nat_eq, bytes_eq,
}
use uml_kernel_build.Fleet.{
  Phase, discovering, peer, seated, cleared, hub, gone, World, try_lock, release, shutdown, probe,
  bind, start, Step, join, lose, sit, probe_path, bind_path, stop, crash, Reach, begin, next,
}

-- The phases of `loop` that run under the lock.
abbrev pub holds : Phase → Bool
holds seated = true
holds cleared = true
holds hub = true
holds _ = false

abbrev pub is_hub : Phase → Bool
is_hub hub = true
is_hub _ = false

pub record IsWorld (w : World) : Type 0 where
  pub locked : (i : ℕ) → holds (w.phase i) ≡ true → w.lock ≡ some i
  pub bound : (i : ℕ) → is_hub (w.phase i) ≡ true → w.file ≡ some i

hub_holds : (a : Phase) → is_hub a ≡ true → holds a ≡ true
hub_holds hub h = refl
hub_holds discovering h = cc
hub_holds peer h = cc
hub_holds seated h = cc
hub_holds cleared h = cc
hub_holds gone h = cc

Step-IsWorld : {w w' : World} → Step w w' → IsWorld w → IsWorld w'
unfolding try_lock release shutdown probe bind
Step-IsWorld {w} (join i p l) v = record {
  locked = λ j h. ground (arith, v.locked j);
  bound = λ j h. ground (arith, v.bound j);
}
Step-IsWorld {w} (lose i p) v = record {
  locked = λ j h. ground (arith, v.locked j);
  bound = λ j h. ground (arith, v.bound j);
}
Step-IsWorld {w} (sit i p l) v = record {
  locked = λ j h. ground (arith, v.locked j);
  bound = λ j h. ground (arith, v.bound j, v.locked j, hub_holds (w.phase j));
}
Step-IsWorld {w} (probe_path i p) v = record {
  locked = λ j h. ground (arith, v.locked j);
  bound = λ j h. ground (arith, v.bound j, v.locked j, v.locked i, hub_holds (w.phase j));
}
Step-IsWorld {w} (bind_path i p) v = record {
  locked = λ j h. ground (arith, v.locked j, v.locked i);
  bound = λ j h. ground (arith, v.bound j, v.locked j, v.locked i, hub_holds (w.phase j));
}
Step-IsWorld {w} (stop i p) v = record {
  locked = λ j h. ground (arith, v.locked j, v.locked i);
  bound = λ j h. ground (arith, v.bound j, v.locked j, v.locked i, hub_holds (w.phase j));
}
Step-IsWorld {w} (crash i) v = record {
  locked = λ j h. ground (arith, v.locked j, v.locked i);
  bound = λ j h. ground (arith, v.bound j, v.locked j, v.locked i, hub_holds (w.phase j));
}

Reach-IsWorld : {w : World} → Reach w → IsWorld w
unfolding start
Reach-IsWorld begin = record { locked = λ i h. cc; bound = λ i h. cc }
Reach-IsWorld (next r st) = Step-IsWorld st (Reach-IsWorld r)

-- A hub holds the lock, and the socket file is its own.
pub hub_owns :
    {w : World} (i : ℕ) → Reach w → w.phase i ≡ hub → (w.lock ≡ some i) × (w.file ≡ some i)
hub_owns {w} i r h = let v = Reach-IsWorld r in (v.locked i (rw h refl), v.bound i (rw h refl))

-- In every run of any number of instances, whatever they do and wherever they crash: two instances
-- that both hold the seat, hubs or not, are one, and it holds the lock; if it is a hub, the socket file
-- at the path is its own.
pub one_hub :
    {w : World} (i j : ℕ)
    → Reach w
    → holds (w.phase i) ≡ true
    → holds (w.phase j) ≡ true
    → (i ≡ j) × (w.lock ≡ some i) × ((is_hub (w.phase i) ≡ false) ⊎ (w.file ≡ some i))
one_hub {w} i j r h h' =
    let v = Reach-IsWorld r in
    let mine : w.lock ≡ some i = v.locked i h in
    let yours : w.lock ≡ some j = v.locked j h' in
    (
      ground arith,
      mine,
      elim (Bool-cases (is_hub (w.phase i))) [
        | inl hub_phase ↦ inr (v.bound i hub_phase)
        | inr other ↦ inl other
      ],
    )
