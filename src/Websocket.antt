-- ===== src/Websocket.antt =====
-- vdeplug-go/helpers/vdews/main.go: the bridge that carries a wire over a websocket. The websocket and
-- the escaping of net/url are parameters; the loop of the connecting side stands on the socket file of
-- Unixseq.
pub mod Carried
pub mod Rebind
pub mod Through
use uml_kernel_build.Common.{
  ℕ, Bool, true, false, not, ◌&&◌, none, some, List, [], ◌∷◌, ◌++◌, ◌==◌, if◌then◌else◌, nat_eq,
  bytes_eq, length, take, Bytes, codes, bytes_beq,
}
use uml_kernel_build.Config.Strings.{Text}
use uml_kernel_build.Unixseq.{
  Identity, Entry, Listener, Outcome, listens, joined, failed, Turns, Place, same_file, stat_path,
  close, bind_or_connect,
}

-- What the two goroutines of `pump` receive, with whether the frame could be passed on. `torn` is the
-- pair of `Close` calls.
pub data Event : Type 0 where
  from_ws from_wire : (frame : Bytes) (passed : Bool) → Event
  ws_gone wire_gone torn : Event

-- `ws_reader` and `wire_reader` are the goroutines that still run.
pub record Pump : Type 0 where
  pub to_wire : List Bytes
  pub to_ws : List Bytes
  pub ws_reader : Bool
  pub wire_reader : Bool
  pub closed : Bool

unfoldable pub new_pump : Pump
new_pump = record { to_wire = []; to_ws = []; ws_reader = true; wire_reader = true; closed = false }

-- The size of the buffer that a frame of the wire is read into.
abbrev pub wire_buffer : ℕ
wire_buffer = 9254

unfoldable pub copy_to_wire : Bytes → Bool → Pump → Pump
copy_to_wire frame passed p =
    if p.ws_reader && not p.closed
    then if length frame == 0
      then p
      else if passed
      then record p { to_wire = p.to_wire ++ (frame ∷ []) }
      else record p { ws_reader = false }
    else p

unfoldable pub copy_to_ws : Bytes → Bool → Pump → Pump
copy_to_ws frame passed p =
    let read = take wire_buffer frame in
    if p.wire_reader && not p.closed
    then if length read == 0
      then p
      else if passed
      then record p { to_ws = p.to_ws ++ (read ∷ []) }
      else record p { wire_reader = false }
    else p

-- The first goroutine that ends makes `pump` close both ends, and with them the other goroutine ends.
unfoldable pub tear : Pump → Pump
tear p =
    if p.ws_reader && p.wire_reader
    then p
    else record p { ws_reader = false; wire_reader = false; closed = true }

unfoldable pub pump_step : Event → Pump → Pump
unfolding copy_to_wire copy_to_ws tear
pump_step (from_ws frame passed) p = copy_to_wire frame passed p
pump_step (from_wire frame passed) p = copy_to_ws frame passed p
pump_step ws_gone p = record p { ws_reader = false }
pump_step wire_gone p = record p { wire_reader = false }
pump_step torn p = tear p

unfoldable pub pump : List Event → Pump → Pump
unfolding pump_step
pump [] p = p
pump (x ∷ xs) p = pump xs (pump_step x p)

unfoldable pub has_code : ℕ → Text → Bool
has_code c [] = false
has_code c (d ∷ s) = let rest = has_code c s in if c == d then true else rest

-- The URL that the connecting side dials; `escape` is `url.QueryEscape`.
unfoldable pub ws_url : (Text → Text) → Text → Text → Text
unfolding has_code
ws_url escape url token =
    if length token == 0
    then url
    else url ++ ((if has_code 63 url then 38 else 63) ∷ codes "token=") ++ escape token

-- Is a request served? `given` is the token of its query, empty if there is none.
unfoldable pub admits : Text → Text → Bool
admits token given = if length token == 0 then true else bytes_beq given token

-- What the watch of a listener sees: the end of the accept loop, or the path after two seconds.
pub data Watched : Type 0 where
  accept_ended : Watched
  tick : (found : Entry) → Watched

pub data Watch : Type 0 where
  watching ended died : (path : Entry) → Watch

-- `watchListener`, with what the path names at its end. Only a path that changed closes the listener.
unfoldable pub watch_listener : Listener → Entry → List Watched → Watch
watch_listener ln path [] = watching path
watch_listener ln path (accept_ended ∷ seen) = ended path
watch_listener ln path (tick found ∷ seen) = elim (stat_path found) [
  | none ↦ ended (close ln found)
  | some file ↦
      let rest = watch_listener ln found seen in
      if same_file file ln.captured then rest else ended (close ln found)
]

-- One round of the loop of `connect`.
pub record Round : Type 0 where
  pub me : Identity
  pub turns : Turns
  pub seen : List Watched

pub data Helper : Type 0 where
  listening fatal : (path : Entry) → Helper

-- What follows the call of `BindOrConnect`; only a listener is watched.
unfoldable pub after_bind : List Watched → Outcome × Place → Watch
unfolding watch_listener
after_bind seen (listens _ ln, w) = watch_listener ln w.entry seen
after_bind seen (joined, w) = died w.entry
after_bind seen (failed, w) = died w.entry

unfoldable pub connect_loop : List Round → Entry → Helper
unfolding bind_or_connect after_bind
connect_loop [] e = listening e
connect_loop (r ∷ rounds) e = elim (after_bind r.seen (bind_or_connect r.me 384 r.turns e)) [
  | watching path ↦ listening path
  | ended path ↦ connect_loop rounds path
  | died path ↦ fatal path
]

-- `serveWS`: `connected` is whether the switch's socket takes the connection. The websocket is closed
-- when its handler returns.
unfoldable pub serve_ws : Bool → List Event → Pump
unfolding pump new_pump
serve_ws connected xs = if connected then pump xs new_pump else record new_pump { closed = true }

-- What `acceptLoop` does with one local connection: `dialled` is whether the websocket comes up.
unfoldable pub bridge_peer : Bool → List Event → Pump
unfolding pump new_pump
bridge_peer dialled xs = if dialled then pump xs new_pump else record new_pump { closed = true }
