-- ===== src/Websocket/Carried.antt =====
-- What the bridge carries.
use uml_kernel_build.Common.{
  ◌≡◌, refl, sym, ◌∙◌, Bool, true, false, List, [], ◌∷◌, ◌++◌, append-nil, append_assoc, arith,
  ◌==◌, if◌then◌else◌, nat_eq, bytes_eq, length, take, All, Bytes,
}
use uml_kernel_build.Websocket.{
  Event, from_ws, from_wire, ws_gone, wire_gone, torn, Pump, new_pump, wire_buffer, pump_step, pump,
}

-- The frames that the websocket delivers, and those that the wire delivers to the buffer, without the
-- empty ones.
unfoldable pub ws_frames : List Event → List Bytes
ws_frames [] = []
ws_frames (from_ws frame _ ∷ xs) =
    let rest = ws_frames xs in if length frame == 0 then rest else frame ∷ rest
ws_frames (_ ∷ xs) = ws_frames xs

unfoldable pub wire_frames : List Event → List Bytes
wire_frames [] = []
wire_frames (from_wire frame _ ∷ xs) =
    let read = take wire_buffer frame in
    let rest = wire_frames xs in if length read == 0 then rest else read ∷ rest
wire_frames (_ ∷ xs) = wire_frames xs

-- A frame that is passed on.
abbrev pub is_clean : Event → Bool
is_clean (from_ws _ passed) = passed
is_clean (from_wire _ passed) = passed
is_clean _ = false

-- Both goroutines run.
pub Runs : Pump → Type 0
Runs p = (p.ws_reader ≡ true) × (p.wire_reader ≡ true) × (p.closed ≡ false)

pub new_pump-Runs : Runs new_pump
unfolding Runs new_pump
new_pump-Runs = (refl, refl, refl)

pump_step-Runs : (x : Event) (p : Pump) → is_clean x ≡ true → Runs p → Runs (pump_step x p)
unfolding pump_step Runs
pump_step-Runs (from_ws frame passed) p c r = ground (arith, c, r)
pump_step-Runs (from_wire frame passed) p c r = ground (arith, c, r)
pump_step-Runs ws_gone p c r = cc
pump_step-Runs wire_gone p c r = cc
pump_step-Runs torn p c r = cc

pump_step-to_wire :
    (x : Event) (p : Pump)
    → is_clean x ≡ true
    → Runs p
    → (pump_step x p).to_wire ≡ p.to_wire ++ ws_frames (x ∷ [])
unfolding pump_step Runs ws_frames
pump_step-to_wire (from_ws frame passed) p c r = ground (arith, c, r, append-nil p.to_wire)
pump_step-to_wire (from_wire frame passed) p c r = ground (arith, c, r, append-nil p.to_wire)
pump_step-to_wire ws_gone p c r = cc
pump_step-to_wire wire_gone p c r = cc
pump_step-to_wire torn p c r = cc

pump_step-to_ws :
    (x : Event) (p : Pump)
    → is_clean x ≡ true
    → Runs p
    → (pump_step x p).to_ws ≡ p.to_ws ++ wire_frames (x ∷ [])
unfolding pump_step Runs wire_frames
pump_step-to_ws (from_ws frame passed) p c r = ground (arith, c, r, append-nil p.to_ws)
pump_step-to_ws (from_wire frame passed) p c r = ground (arith, c, r, append-nil p.to_ws)
pump_step-to_ws ws_gone p c r = cc
pump_step-to_ws wire_gone p c r = cc
pump_step-to_ws torn p c r = cc

ws_frames_head :
    (x : Event) (xs : List Event) → ws_frames (x ∷ xs) ≡ ws_frames (x ∷ []) ++ ws_frames xs
unfolding ws_frames
ws_frames_head (from_ws frame passed) xs = ground arith
ws_frames_head (from_wire frame passed) xs = refl
ws_frames_head ws_gone xs = refl
ws_frames_head wire_gone xs = refl
ws_frames_head torn xs = refl

wire_frames_head :
    (x : Event) (xs : List Event) → wire_frames (x ∷ xs) ≡ wire_frames (x ∷ []) ++ wire_frames xs
unfolding wire_frames
wire_frames_head (from_ws frame passed) xs = refl
wire_frames_head (from_wire frame passed) xs = ground arith
wire_frames_head ws_gone xs = refl
wire_frames_head wire_gone xs = refl
wire_frames_head torn xs = refl

pub pump-clean :
    (xs : List Event) (p : Pump)
    → All (λ x. is_clean x ≡ true) xs
    → Runs p
    → ((pump xs p).to_wire ≡ p.to_wire ++ ws_frames xs)
      × ((pump xs p).to_ws ≡ p.to_ws ++ wire_frames xs)
unfolding pump ws_frames wire_frames
pump-clean [] p c r = (sym (append-nil p.to_wire), sym (append-nil p.to_ws))
pump-clean (x ∷ xs) p (c, cs) r =
    let rest = pump-clean xs (pump_step x p) cs (pump_step-Runs x p c r) in
    (
      rw
          (
            ws_frames_head x xs,
            ← append_assoc p.to_wire (ws_frames (x ∷ [])) (ws_frames xs),
            ← pump_step-to_wire x p c r,
          )
          rest.0,
      rw
          (
            wire_frames_head x xs,
            ← append_assoc p.to_ws (wire_frames (x ∷ [])) (wire_frames xs),
            ← pump_step-to_ws x p c r,
          )
          rest.1,
    )

pump-append : (xs ys : List Event) (p : Pump) → pump (xs ++ ys) p ≡ pump ys (pump xs p)
unfolding pump
pump-append [] ys p = refl
pump-append (x ∷ xs) ys p = pump-append xs ys (pump_step x p)

-- After a goroutine has ended and both ends were closed, nothing more is carried.
Ended : Pump → Type 0
Ended p = (p.ws_reader ≡ false) × (p.wire_reader ≡ false)

SameFrames : Pump → Pump → Type 0
SameFrames p q = (q.to_wire ≡ p.to_wire) × (q.to_ws ≡ p.to_ws)

pump_step-Ended :
    (x : Event) (p : Pump) → Ended p → Ended (pump_step x p) × SameFrames p (pump_step x p)
unfolding pump_step Ended SameFrames
pump_step-Ended (from_ws frame passed) p h = ground (arith, h)
pump_step-Ended (from_wire frame passed) p h = ground (arith, h)
pump_step-Ended ws_gone p h = ground (arith, h)
pump_step-Ended wire_gone p h = ground (arith, h)
pump_step-Ended torn p h = ground (arith, h)

pump-Ended : (xs : List Event) (p : Pump) → Ended p → SameFrames p (pump xs p)
unfolding pump SameFrames
pump-Ended [] p h = (refl, refl)
pump-Ended (x ∷ xs) p h =
    let (over, same) = pump_step-Ended x p h in
    let (wire, ws) = pump-Ended xs (pump_step x p) over in (wire ∙ same.0, ws ∙ same.1)

-- Reading from one of the two ends fails.
abbrev pub is_gone : Event → Bool
is_gone ws_gone = true
is_gone wire_gone = true
is_gone _ = false

pump_step-torn :
    (x : Event) (p : Pump)
    → is_gone x ≡ true
    → Ended (pump_step torn (pump_step x p)) × SameFrames p (pump_step torn (pump_step x p))
unfolding pump_step Ended SameFrames
pump_step-torn ws_gone p h = ground arith
pump_step-torn wire_gone p h = ground arith
pump_step-torn (from_ws frame passed) p h = cc
pump_step-torn (from_wire frame passed) p h = cc
pump_step-torn torn p h = cc

-- In any interleaving of the two directions: as long as each frame that is received can be passed on,
-- each direction carries its frames in their order and without the empty ones, those of the wire cut
-- to the buffer. When then one end fails and both are closed, nothing of what follows is carried.
pub pump_carries :
    (before after : List Event) (x : Event)
    → All (λ e. is_clean e ≡ true) before
    → is_gone x ≡ true
    → ((pump (before ++ (x ∷ (torn ∷ after))) new_pump).to_wire ≡ ws_frames before)
      × ((pump (before ++ (x ∷ (torn ∷ after))) new_pump).to_ws ≡ wire_frames before)
unfolding new_pump pump Runs SameFrames
pump_carries before after x clean gone =
    let (wire, ws) = pump-clean before new_pump clean (refl, refl, refl) in
    let p = pump before new_pump in
    let (over, same) = pump_step-torn x p gone in
    let (wire', ws') = pump-Ended after (pump_step torn (pump_step x p)) over in
    rw (pump-append before (x ∷ (torn ∷ after)) new_pump) (wire' ∙ same.0 ∙ wire, ws' ∙ same.1 ∙ ws)
