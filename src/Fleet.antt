-- ===== src/Fleet.antt =====
-- The failover loop of vdeplug-go/main.go (`fleet.loop`, `fleet.runPeer`), with the seat's file lock
-- of internal/elect/elect.go and the socket file of internal/unixseq/unixseq.go. Any number of
-- instances, named by numbers, share one lock and one socket path; a step is one system call of one
-- of them that the others can see.
pub mod Seat
pub mod Progress
pub mod Backoff
pub mod Calls
pub mod Wire
pub mod Peer
use uml_kernel_build.Common.{
  ℕ, ◌≡◌, Bool, true, false, Option, none, some, ◌==◌, if◌then◌else◌, nat_eq, bytes_eq,
}

-- discovering: at the head of `loop`. seated: holds the lock, about to bind. cleared: no listener
-- answered and a stale socket file is gone. hub: listens on the socket it bound.
pub data Phase : Type 0 where
  discovering peer seated cleared hub gone : Phase

-- `file` is the instance that bound the socket file at the path, alive or not.
pub record World : Type 0 where
  pub lock : Option ℕ
  pub file : Option ℕ
  pub phase : ℕ → Phase

abbrev pub set_phase : ℕ → Phase → (ℕ → Phase) → ℕ → Phase
set_phase i a f j = if i == j then a else f j

-- `flock` with LOCK_NB: `none` is ErrSeatHeld.
unfoldable pub try_lock : ℕ → World → Option World
try_lock i w = elim w.lock [
  | none ↦ some (record w { lock = some i; phase = set_phase i seated w.phase })
  | some _ ↦ none
]

-- The seat is dropped by `release`, or by the kernel when the holder dies.
unfoldable pub drop_lock : ℕ → Option ℕ → Option ℕ
drop_lock i none = none
drop_lock i (some j) = if i == j then none else some j

-- `TryConnect`: does a living hub listen on the socket file?
unfoldable pub listening : World → Bool
listening w = elim w.file [ none ↦ false | some j ↦ elim (w.phase j) [ hub ↦ true | _ ↦ false ] ]

unfoldable pub release : ℕ → Phase → World → World
unfolding drop_lock
release i a w = record w { lock = drop_lock i w.lock; phase = set_phase i a w.phase }

-- `Listener.Close` removes the file only if it is the one bound.
unfoldable pub shutdown : ℕ → World → World
unfolding release drop_lock
shutdown i w = record (release i gone w) { file = drop_lock i w.file }

-- What a seated instance does in `BindOrConnect`, up to the unlink: join a hub that answers (and give
-- the seat back), or clear the path.
unfoldable pub probe : ℕ → World → World
unfolding release listening
probe i w =
    if listening w
    then release i discovering w
    else record w { file = none; phase = set_phase i cleared w.phase }

-- Bind and listen. If the path is taken again, the instance gives up the seat and connects or dies.
unfoldable pub bind : ℕ → World → World
unfolding release
bind i w = elim w.file [
  | none ↦ record w { file = some i; phase = set_phase i hub w.phase }
  | some _ ↦ release i discovering w
]

unfoldable pub start : World
start = record { lock = none; file = none; phase = λ _. discovering }

pub data Step (w : World) : World → Type 0 where
  join :
      (i : ℕ)
      → w.phase i ≡ discovering
      → listening w ≡ true
      → Step w (record w { phase = set_phase i peer w.phase })
  lose : (i : ℕ) → w.phase i ≡ peer → Step w (record w { phase = set_phase i discovering w.phase })
  sit : (i : ℕ) {w' : World} → w.phase i ≡ discovering → try_lock i w ≡ some w' → Step w w'
  probe_path : (i : ℕ) → w.phase i ≡ seated → Step w (probe i w)
  bind_path : (i : ℕ) → w.phase i ≡ cleared → Step w (bind i w)
  stop : (i : ℕ) → w.phase i ≡ hub → Step w (shutdown i w)
  crash : (i : ℕ) → Step w (release i gone w)

pub data Reach : World → Type 0 where
  begin : Reach start
  next : {w w' : World} → Reach w → Step w w' → Reach w'
