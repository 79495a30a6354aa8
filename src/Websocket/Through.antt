-- ===== src/Websocket/Through.antt =====
-- From a wire on the connecting side to the switch on the serving side.
use uml_kernel_build.Common.{
  ◌≤◌, ◌<◌, ◌≡◌, refl, ap, ◌∙◌, true, false, List, [], ◌∷◌, map, arith, ◌==◌, nat_eq, bytes_eq,
  length, take, All, take_of_length-le, Bytes,
}
use uml_kernel_build.Websocket.{
  Event, from_ws, from_wire, new_pump, wire_buffer, pump, serve_ws, bridge_peer,
}
use uml_kernel_build.Websocket.Carried.{ws_frames, wire_frames, is_clean, new_pump-Runs, pump-clean}

-- Frames that are received one after the other and passed on.
abbrev pub sent_by_wire : List Bytes → List Event
sent_by_wire frames = map (λ f. from_wire f true) frames

abbrev pub sent_by_ws : List Bytes → List Event
sent_by_ws frames = map (λ f. from_ws f true) frames

sent_by_wire_clean : (frames : List Bytes) → All (λ x. is_clean x ≡ true) (sent_by_wire frames)
sent_by_wire_clean [] = tt
sent_by_wire_clean (f ∷ frames) = (refl, sent_by_wire_clean frames)

sent_by_ws_clean : (frames : List Bytes) → All (λ x. is_clean x ≡ true) (sent_by_ws frames)
sent_by_ws_clean [] = tt
sent_by_ws_clean (f ∷ frames) = (refl, sent_by_ws_clean frames)

wire_frames_sent :
    (frames : List Bytes)
    → All (λ f. (0 < length f) × (length f ≤ wire_buffer)) frames
    → wire_frames (sent_by_wire frames) ≡ frames
unfolding wire_frames
wire_frames_sent [] h = refl
wire_frames_sent (f ∷ frames) h =
    let whole : take wire_buffer f ≡ f = take_of_length-le wire_buffer f h.0.1 in
    let some_bytes : (length f == 0) ≡ false = ground (arith, h.0.0) in
    rw (wire_frames_sent frames h.1, whole, some_bytes) refl

ws_frames_sent :
    (frames : List Bytes)
    → All (λ f. (0 < length f) × (length f ≤ wire_buffer)) frames
    → ws_frames (sent_by_ws frames) ≡ frames
unfolding ws_frames
ws_frames_sent [] h = refl
ws_frames_sent (f ∷ frames) h =
    let some_bytes : (length f == 0) ≡ false = ground (arith, h.0.0) in
    rw (ws_frames_sent frames h.1, some_bytes) refl

-- Frames of 1 to 9254 bytes that a peer sends into the connecting helper, while both helpers are
-- connected and nothing fails, come out of the serving helper at the switch: the same, once and
-- in order.
pub bridge_peer-serve_ws :
    (frames : List Bytes)
    → All (λ f. (0 < length f) × (length f ≤ wire_buffer)) frames
    → (serve_ws true (sent_by_ws (bridge_peer true (sent_by_wire frames)).to_ws)).to_wire ≡ frames
unfolding serve_ws bridge_peer new_pump
bridge_peer-serve_ws frames h =
    let out : (pump (sent_by_wire frames) new_pump).to_ws ≡ frames =
      (pump-clean (sent_by_wire frames) new_pump (sent_by_wire_clean frames) new_pump-Runs).1
      ∙ wire_frames_sent frames h in
    ap (λ fs. (pump (sent_by_ws fs) new_pump).to_wire) out
    ∙ (pump-clean (sent_by_ws frames) new_pump (sent_by_ws_clean frames) new_pump-Runs).0
    ∙ ws_frames_sent frames h
