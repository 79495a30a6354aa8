-- ===== src/Fleet/Wire.antt =====
-- The guest's wire across the changes of role, vdeplug-go/main.go: `setPeer`, `currentPeer` and the
-- loop of `wire`.
use uml_kernel_build.Common.{
  ℕ, ◌≡◌, ◌⊎◌, inl, inr, refl, sym, ap, ◌∙◌, Bool, true, false, not, ◌&&◌, Option, none, some, List,
  [], ◌∷◌, ◌++◌, map, append_assoc, arith, ltb, if◌then◌else◌, Bool-cases, nat_eq, bytes_eq, length,
  All, Bytes,
}
use uml_kernel_build.Switch.{Switch, local, forward}
use uml_kernel_build.Startup.{Routed, to_hub, to_switch, wire_step}

-- A frame that the guest sends, with whether the hub would take it, or a change of role: `set_peer`
-- says whether there is a hub to relay to.
pub data WireEvent : Type 0 where
  guest_frame : (now : ℕ) (frame : Bytes) (taken : Bool) → WireEvent
  set_peer : (on : Bool) → WireEvent

pub record Wire : Type 0 where
  pub peer : Bool
  pub switch : Switch

-- `currentPeer`
abbrev pub current_peer : Bool → Wire → Option Bool
current_peer taken w = if w.peer then some taken else none

unfoldable pub wire_event : WireEvent → Wire → List Routed × Wire
unfolding wire_step
wire_event (set_peer on) w = ([], record w { peer = on })
wire_event (guest_frame now frame taken) w =
    let (routed, s) = wire_step now (current_peer taken w) frame w.switch in
    (routed, record w { switch = s })

unfoldable pub wire : List WireEvent → Wire → List Routed × Wire
unfolding wire_event
wire [] w = ([], w)
wire (x ∷ xs) w =
    let (routed, w1) = wire_event x w in let (more, w2) = wire xs w1 in (routed ++ more, w2)

-- The guest's frames that have an Ethernet header.
unfoldable pub long_frames : List WireEvent → List Bytes
long_frames [] = []
long_frames (set_peer on ∷ xs) = long_frames xs
long_frames (guest_frame now frame taken ∷ xs) =
    let rest = long_frames xs in if ltb (length frame) 14 then rest else frame ∷ rest

abbrev pub frame_of : Routed → Bytes
frame_of (to_hub frame) = frame
frame_of (to_switch now frame sent) = frame

abbrev pub at_switch : Routed → Bool
at_switch (to_hub frame) = false
at_switch (to_switch now frame sent) = true

-- The same frames through the switch once more: what it sends for each, and its state at the end.
unfoldable pub rerun : List Routed → Switch → List Routed × Switch
rerun [] s = ([], s)
rerun (to_hub frame ∷ rs) s = let (more, s') = rerun rs s in (to_hub frame ∷ more, s')
rerun (to_switch now frame _ ∷ rs) s =
    let (sent, s1) = forward now local frame s in
    let (more, s2) = rerun rs s1 in (to_switch now frame sent ∷ more, s2)

-- Whether the hub takes each of these frames: it is joined, and its wire works.
unfoldable pub hub_takes : Bool → List WireEvent → List Bool
hub_takes on [] = []
hub_takes on (set_peer now_on ∷ xs) = hub_takes now_on xs
hub_takes on (guest_frame now frame taken ∷ xs) =
    let rest = hub_takes on xs in if ltb (length frame) 14 then rest else (on && taken) ∷ rest

-- What a frame of the guest leads to.
wire_event-cases :
    (now : ℕ) (taken : Bool) (frame : Bytes) (w : Wire)
    → ((ltb (length frame) 14 ≡ true) × (wire_event (guest_frame now frame taken) w ≡ ([], w)))
      ⊎ (((ltb (length frame) 14 ≡ false)
            × ((w.peer && taken) ≡ true)
            × (wire_event (guest_frame now frame taken) w ≡ (to_hub frame ∷ [], w)))
          ⊎ ((ltb (length frame) 14 ≡ false)
              × ((w.peer && taken) ≡ false)
              × (wire_event (guest_frame now frame taken) w ≡ (
                to_switch now frame (forward now local frame w.switch).0 ∷ [],
                record w { switch = (forward now local frame w.switch).1 },
              ))))
unfolding wire_event wire_step
wire_event-cases now taken frame w = elim (Bool-cases (ltb (length frame) 14)) [
  | inl short ↦ inl (short, ground (arith, short))
  | inr long ↦ elim (Bool-cases (w.peer && taken)) [
    | inl hub ↦ inr (inl (long, hub, ground (arith, long, hub)))
    | inr own ↦ inr (inr (long, own, ground (arith, long, own)))
  ]
]

wire_next :
    (x : WireEvent) (xs : List WireEvent) (w w1 : Wire) (rs : List Routed)
    → wire_event x w ≡ (rs, w1)
    → wire (x ∷ xs) w ≡ (rs ++ (wire xs w1).0, (wire xs w1).1)
unfolding wire
wire_next x xs w w1 rs e =
    ap (λ (r : List Routed × Wire). (r.0 ++ (wire xs r.1).0, (wire xs r.1).1)) e

wire_peer :
    (on : Bool) (xs : List WireEvent) (w : Wire)
    → wire (set_peer on ∷ xs) w ≡ wire xs (record w { peer = on })
unfolding wire
wire_peer on xs w = refl

wire_frames : (xs : List WireEvent) (w : Wire) → map frame_of (wire xs w).0 ≡ long_frames xs
unfolding long_frames
wire_frames [] w = unfold wire in refl
wire_frames (set_peer on ∷ xs) w = rw (wire_peer on xs w) (wire_frames xs (record w { peer = on }))
wire_frames (guest_frame now frame taken ∷ xs) w = elim (wire_event-cases now taken frame w) [
  | inl (short, e) ↦ rw (short, wire_next _ xs w w [] e) (wire_frames xs w)
  | inr (inl (long, hub, e)) ↦ rw (long, wire_next _ xs w w _ e) (ap (◌∷◌ frame) (wire_frames xs w))
  | inr (inr (long, own, e)) ↦ rw (long, wire_next _ xs w _ _ e) (ap (◌∷◌ frame) (wire_frames xs _))
]

wire_takes :
    (xs : List WireEvent) (w : Wire)
    → map (λ r. not (at_switch r)) (wire xs w).0 ≡ hub_takes w.peer xs
unfolding hub_takes
wire_takes [] w = unfold wire in refl
wire_takes (set_peer on ∷ xs) w = rw (wire_peer on xs w) (wire_takes xs (record w { peer = on }))
wire_takes (guest_frame now frame taken ∷ xs) w = elim (wire_event-cases now taken frame w) [
  | inl (short, e) ↦ rw (short, wire_next _ xs w w [] e) (wire_takes xs w)
  | inr (inl (long, hub, e)) ↦
      rw (long, hub, wire_next _ xs w w _ e) (ap (◌∷◌ true) (wire_takes xs w))
  | inr (inr (long, own, e)) ↦
      rw (long, own, wire_next _ xs w _ _ e) (ap (◌∷◌ false) (wire_takes xs _))
]

wire-rerun :
    (xs : List WireEvent) (w : Wire)
    → rerun (wire xs w).0 w.switch ≡ ((wire xs w).0, (wire xs w).1.switch)
unfolding rerun
wire-rerun [] w = unfold wire in refl
wire-rerun (set_peer on ∷ xs) w = rw (wire_peer on xs w) (wire-rerun xs (record w { peer = on }))
wire-rerun (guest_frame now frame taken ∷ xs) w = elim (wire_event-cases now taken frame w) [
  | inl (short, e) ↦ rw (wire_next _ xs w w [] e) (wire-rerun xs w)
  | inr (inl (long, hub, e)) ↦
      rw (wire_next _ xs w w _ e)
        (ap (λ (r : List Routed × Switch). (to_hub frame ∷ r.0, r.1)) (wire-rerun xs w))
  | inr (inr (long, own, e)) ↦
      let sent = (forward now local frame w.switch).0 in
      rw (wire_next _ xs w _ _ e)
        (ap (λ (r : List Routed × Switch). (to_switch now frame sent ∷ r.0, r.1)) (wire-rerun xs _))
]

wire-append :
    (xs ys : List WireEvent) (w : Wire)
    → wire (xs ++ ys) w ≡ ((wire xs w).0 ++ (wire ys (wire xs w).1).0, (wire ys (wire xs w).1).1)
unfolding wire
wire-append [] ys w = refl
wire-append (x ∷ xs) ys w =
    let routed = (wire_event x w).0 in
    let w1 = (wire_event x w).1 in
    rw (wire-append xs ys w1) (
      ap (λ (rs : List Routed). (rs, (wire ys (wire xs w1).1).1))
        (sym (append_assoc routed (wire xs w1).0 (wire ys (wire xs w1).1).0)))

abbrev pub is_frame : WireEvent → Bool
is_frame (guest_frame _ _ _) = true
is_frame (set_peer _) = false

-- A hub that is not joined takes nothing.
hub_takes_none :
    (xs : List WireEvent)
    → All (λ x. is_frame x ≡ true) xs
    → hub_takes false xs ≡ map (λ _. false) (long_frames xs)
unfolding hub_takes long_frames
hub_takes_none [] h = refl
hub_takes_none (set_peer on ∷ xs) h = cc h.0
hub_takes_none (guest_frame now frame taken ∷ xs) h = elim (Bool-cases (ltb (length frame) 14)) [
  | inl short ↦ rw short (hub_takes_none xs h.1)
  | inr long ↦ rw long (ap (◌∷◌ false) (hub_takes_none xs h.1))
]

-- Whatever the roles of an instance were and whether its hubs took its frames: every frame of the guest
-- that has an Ethernet header is handed on once, in order, to the hub if one is joined and takes it, and
-- to the own switch if not; what the switch sends and becomes is what `forward` makes of the
-- frames handed to it, and of no others. When the hub is given up, all frames from then on are handed
-- to the own switch.
pub wire_handover :
    (before after : List WireEvent) (w : Wire)
    → All (λ x. is_frame x ≡ true) after
    → (rest : List Routed) × ((wire (before ++ (set_peer false ∷ after)) w).0
        ≡ (wire before w).0 ++ rest)
      × (map frame_of (wire before w).0 ≡ long_frames before)
      × (map (λ r. not (at_switch r)) (wire before w).0 ≡ hub_takes w.peer before)
      × (map frame_of rest ≡ long_frames after)
      × (map (λ r. not (at_switch r)) rest ≡ map (λ _. false) (long_frames after))
      × (rerun (wire (before ++ (set_peer false ∷ after)) w).0 w.switch ≡ (
        (wire (before ++ (set_peer false ∷ after)) w).0,
        (wire (before ++ (set_peer false ∷ after)) w).1.switch,
      ))
unfolding wire wire_event
wire_handover before after w h =
    let alone = record (wire before w).1 { peer = false } in
    (
      (wire after alone).0,
      ap (λ (r : List Routed × Wire). r.0) (wire-append before (set_peer false ∷ after) w),
      wire_frames before w,
      wire_takes before w,
      wire_frames after alone,
      wire_takes after alone ∙ hub_takes_none after h,
      wire-rerun (before ++ (set_peer false ∷ after)) w,
    )
