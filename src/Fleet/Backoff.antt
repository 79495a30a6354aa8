-- ===== src/Fleet/Backoff.antt =====
-- How long `fleet.loop` of vdeplug-go/main.go waits between its attempts, in nanoseconds.
use uml_kernel_build.Common.{
  ℕ, ◌+◌, ◌*◌, ◌/◌, ◌%◌, ◌≤◌, ◌<◌, ◌≡◌, ◌⊎◌, inl, refl, List, [], ◌∷◌, arith, ltb, if◌then◌else◌,
  nat_eq, bytes_eq,
}

abbrev pub millisecond : ℕ
millisecond = 1_000_000

abbrev pub second : ℕ
second = 1000 * millisecond

-- What one round of the loop came to, with the number that `rand.Intn` draws. In `joined_hub` the
-- hub was joined and lost again, in `seat_held` another instance holds the lock, and in `late_hub` a hub
-- appeared when the seat had been taken.
pub data Round : Type 0 where
  joined_hub seat_held : (drawn : ℕ) → Round
  late_hub : Round

unfoldable pub first_backoff : ℕ
first_backoff = 250 * millisecond

unfoldable pub next_backoff : ℕ → ℕ
next_backoff backoff = if ltb backoff (2 * second) then backoff * 2 else backoff

-- `rand.Intn`
unfoldable pub intn : ℕ → ℕ → ℕ
intn n drawn = drawn % n

-- The sleep of a round, and the back-off after it.
unfoldable pub wait_round : Round → ℕ → ℕ × ℕ
unfolding first_backoff next_backoff intn
wait_round (joined_hub drawn) backoff = (intn 250 drawn * millisecond, first_backoff)
wait_round (seat_held drawn) backoff =
    (backoff + (intn (backoff / 2) drawn + 1), next_backoff backoff)
wait_round late_hub backoff = (0, backoff)

unfoldable pub waits_from : ℕ → List Round → List ℕ
unfolding wait_round
waits_from backoff [] = []
waits_from backoff (r ∷ rounds) =
    let (slept, after) = wait_round r backoff in slept ∷ waits_from after rounds

unfoldable pub waits : List Round → List ℕ
unfolding waits_from first_backoff
waits rounds = waits_from first_backoff rounds

-- How long a round may sleep: after a lost hub less than 250 ms, and while the seat is held by another
-- instance more than 250 ms and at most three seconds.
pub Allowed : Round → ℕ → Type 0
Allowed (joined_hub _) slept = slept < 250 * millisecond
Allowed (seat_held _) slept = (250 * millisecond < slept) × (slept ≤ 3 * second)
Allowed late_hub slept = slept ≡ 0

pub AllAllowed : List Round → List ℕ → Type 0
AllAllowed [] [] = Unit {0}
AllAllowed (r ∷ rounds) (slept ∷ sleeps) = Allowed r slept × AllAllowed rounds sleeps
AllAllowed _ _ = ⊥

-- 250 ms doubled up to 2 s.
OnLadder : ℕ → Type 0
OnLadder b = (b ≡ 250 * millisecond) ⊎ (b ≡ 500 * millisecond) ⊎ (b ≡ second) ⊎ (b ≡ 2 * second)

wait_round-Allowed :
    (r : Round) (backoff : ℕ)
    → OnLadder backoff
    → Allowed r (wait_round r backoff).0 × OnLadder (wait_round r backoff).1
unfolding wait_round Allowed OnLadder first_backoff next_backoff intn
wait_round-Allowed (joined_hub drawn) backoff h = (omega arith, inl refl)
wait_round-Allowed late_hub backoff h = (refl, h)
wait_round-Allowed (seat_held drawn) backoff h = ground arith

waits_from-Allowed :
    (backoff : ℕ) (rounds : List Round)
    → OnLadder backoff
    → AllAllowed rounds (waits_from backoff rounds)
unfolding AllAllowed waits_from
waits_from-Allowed backoff [] h = tt
waits_from-Allowed backoff (r ∷ rounds) h =
    let (now, after) = wait_round-Allowed r backoff h in
    (now, waits_from-Allowed (wait_round r backoff).1 rounds after)

-- In every run of the loop, whatever is drawn: after a lost hub an instance looks for a hub again
-- within 250 ms, and while another one holds the seat it waits between 250 ms and three seconds.
pub waits-Allowed : (rounds : List Round) → AllAllowed rounds (waits rounds)
unfolding waits OnLadder first_backoff
waits-Allowed rounds = waits_from-Allowed _ rounds (inl refl)
