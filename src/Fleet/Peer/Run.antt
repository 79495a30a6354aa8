-- ===== src/Fleet/Peer/Run.antt =====
-- One life as a peer, `runPeer` of vdeplug-go/main.go: its reader and its watch until one of them ends
-- it. What the reader still passes on between that end and the closing of its wire is left out.
use uml_kernel_build.Common.{
  ℕ, ◌+◌, ◌≤◌, ◌<◌, ◌≡◌, inl, inr, refl, ap, ◌∙◌, Bool, true, false, Option, none, some, List, [],
  ◌∷◌, ◌++◌, append-nil, arith, ltb, if◌then◌else◌, Bool-cases, nat_eq, bytes_eq, length, All,
  Bytes,
}
use uml_kernel_build.Elect.{is_beacon}
use uml_kernel_build.Fleet.Peer.{PeerState, beacon_deadline, snoop, hub_silent}

-- A frame of the hub with whether the guest's socket takes it, the end of the hub's wire, or a round of the
-- watch.
pub data Input : Type 0 where
  hub_frame : (now : ℕ) (frame : Bytes) (taken : Bool) → Input
  hub_gone : Input
  tick : (now : ℕ) → Input

pub data Reason : Type 0 where
  hub_error guest_error silent : Reason

-- What the guest was sent, why the hub was given up, none while it is not, and the state.
pub record PeerRun : Type 0 where
  pub to_guest : List Bytes
  pub ended : Option Reason
  pub state : PeerState

unfoldable pub stop : Reason → PeerState → PeerRun
stop reason st = record { to_guest = []; ended = some reason; state = st }

-- A frame for the guest, and what follows if the guest's socket takes it.
unfoldable pub pass_on : Option Bytes → Bool → PeerState → PeerRun → PeerRun
unfolding stop
pass_on none taken st rest = rest
pass_on (some frame) false st rest = stop guest_error st
pass_on (some frame) true st rest = record rest { to_guest = frame ∷ rest.to_guest }

unfoldable pub run_peer : List Input → PeerState → PeerRun
unfolding stop pass_on snoop hub_silent
run_peer [] st = record { to_guest = []; ended = none; state = st }
run_peer (hub_gone ∷ xs) st = stop hub_error st
run_peer (tick now ∷ xs) st =
    let rest = run_peer xs st in if hub_silent now st then stop silent st else rest
run_peer (hub_frame now frame taken ∷ xs) st =
    let (out, st1) = snoop now frame st in pass_on out taken st1 (run_peer xs st1)

-- Nothing fails, no heartbeat comes, and the watch looks no later than three seconds after `heard`.
unfoldable pub IsQuiet : ℕ → Input → Type 0
IsQuiet heard (hub_frame now frame taken) = (is_beacon frame ≡ false) × (taken ≡ true)
IsQuiet heard hub_gone = ⊥
IsQuiet heard (tick now) = now ≤ heard + beacon_deadline

-- The frames for the guest.
unfoldable pub guest_frames : List Input → List Bytes
guest_frames [] = []
guest_frames (hub_frame now frame taken ∷ xs) =
    let rest = guest_frames xs in if ltb (length frame) 14 then rest else frame ∷ rest
guest_frames (_ ∷ xs) = guest_frames xs

snoop_plain :
    (now : ℕ) (frame : Bytes) (st : PeerState)
    → is_beacon frame ≡ false
    → snoop now frame st ≡ ((if ltb (length frame) 14 then none else some frame), st)
unfolding snoop
snoop_plain now frame st plain = elim (Bool-cases (ltb (length frame) 14)) [
  | inl short ↦ rw (short, snoop) refl
  | inr long ↦ rw (long, plain, snoop) refl
]

-- Frames that are given to the guest in front.
abbrev pub after : List Bytes → PeerRun → PeerRun
after frames r = record r { to_guest = frames ++ r.to_guest }

run_peer_quiet :
    (xs ys : List Input) (heard : ℕ) (st : PeerState)
    → All (IsQuiet heard) xs
    → ((now : ℕ) → now ≤ heard + beacon_deadline → hub_silent now st ≡ false)
    → run_peer (xs ++ ys) st ≡ after (guest_frames xs) (run_peer ys st)
unfolding run_peer IsQuiet guest_frames pass_on
run_peer_quiet [] ys heard st q calm = refl
run_peer_quiet (hub_gone ∷ xs) ys heard st q calm = absurd q.0
run_peer_quiet (tick now ∷ xs) ys heard st q calm =
    rw (calm now q.0) (run_peer_quiet xs ys heard st q.1 calm)
run_peer_quiet (hub_frame now frame taken ∷ xs) ys heard st q calm =
    let ih = run_peer_quiet xs ys heard st q.1 calm in
    elim (Bool-cases (ltb (length frame) 14)) [
      | inl short ↦ rw (snoop_plain now frame st q.0.0, short) ih
      | inr long ↦
          rw (snoop_plain now frame st q.0.0, long, q.0.1)
            (ap {A = PeerRun} (λ r. record r { to_guest = frame ∷ r.to_guest }) ih)
    ]

run_peer_given_up :
    (now : ℕ) (ys : List Input) (st : PeerState)
    → hub_silent now st ≡ true
    → run_peer (tick now ∷ ys) st ≡ stop silent st
unfolding run_peer
run_peer_given_up now ys st gone = rw gone refl

run_peer_kept :
    (now : ℕ) (st : PeerState)
    → hub_silent now st ≡ false
    → run_peer (tick now ∷ []) st ≡ run_peer [] st
unfolding run_peer
run_peer_kept now st calm = rw calm refl

-- A hub sends frames but no heartbeat, all of which the guest takes, and the watch looks at it for
-- three seconds, and once more after that. If it had sent a heartbeat before, at the start of
-- these three seconds, it is given up at that last look, and no later; if it never sent one, it is
-- not given up. In both cases the guest gets the frames that have an Ethernet header, in order, and the
-- lease table is kept.
pub run_peer_verdict :
    (xs ys : List Input) (heard later : ℕ) (st : PeerState)
    → All (IsQuiet heard) xs
    → heard + beacon_deadline < later
    → (run_peer (xs ++ (tick later ∷ ys)) (record st { saw_beacon = true; last_beacon = heard })
        ≡ record {
          to_guest = guest_frames xs;
          ended = some silent;
          state = record st { saw_beacon = true; last_beacon = heard };
        })
      × (run_peer (xs ++ (tick later ∷ [])) (record st { saw_beacon = false }) ≡ record {
        to_guest = guest_frames xs;
        ended = none;
        state = record st { saw_beacon = false };
      })
unfolding run_peer hub_silent stop
run_peer_verdict xs ys heard later st q late =
    let frames = guest_frames xs in
    let armed : PeerState = record st { saw_beacon = true; last_beacon = heard } in
    let trusted : PeerState = record st { saw_beacon = false } in
    let end : frames ++ [] ≡ frames = append-nil frames in
    (
      run_peer_quiet xs (tick later ∷ ys) heard armed q (λ now soon. ground (arith, soon))
          ∙ ap (after frames) (run_peer_given_up later ys armed (ground (arith, late)))
          ∙ rw end refl,
      run_peer_quiet xs (tick later ∷ []) heard trusted q (λ now soon. refl)
          ∙ ap (after frames) (run_peer_kept later trusted refl)
          ∙ rw end refl,
    )
