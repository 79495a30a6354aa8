-- ===== src/Unixseq.antt =====
-- The socket file of the switch, vdeplug-go/internal/unixseq/unixseq.go: TryConnect, BindOrConnect,
-- Stat and Close of the listener. Other processes may change what the path names between any two
-- system calls; the turn of a call says how, and whether the kernel grants it.
pub mod Bind
pub mod Close
use uml_kernel_build.Common.{
  ℕ, Bool, true, false, ◌&&◌, Option, none, some, List, [], ◌∷◌, ◌==◌, if◌then◌else◌, nat_eq,
  bytes_eq,
}

pub record Identity : Type 0 where
  pub ino : ℕ
  pub dev : ℕ

-- What the path names. A socket is live while a listener answers on it.
pub data Entry : Type 0 where
  absent : Entry
  regular : (file : Identity) → Entry
  socket : (file : Identity) (live : Bool) → Entry

-- `bound` is the socket file that the descriptor listens on, `captured` the identity that `Close`
-- compares, with inode 0 where it could not be read.
pub record Listener : Type 0 where
  pub bound : Identity
  pub captured : Identity

-- `chmod` is the mode that the socket file gets.
pub data Outcome : Type 0 where
  listens : (chmod : ℕ) (ln : Listener) → Outcome
  joined failed : Outcome

-- `others` is what happens to the path before the call; `opens` is whether the kernel grants the call,
-- and `answers` whether a living listener takes the connection.
pub record Turn : Type 0 where
  pub others : Entry → Entry
  pub opens : Bool
  pub answers : Bool

-- The system calls of `BindOrConnect` in their order.
pub record Turns : Type 0 where
  pub first : Turn
  pub second : Turn
  pub stat : Turn
  pub remove : Turn
  pub hub_socket : Turn
  pub bind : Turn
  pub third : Turn
  pub listen : Turn
  pub cleanup : Turn
  pub capture : Turn

-- The path, with what `BindOrConnect` removed from it.
pub record Place : Type 0 where
  pub entry : Entry
  pub removed : List Entry

abbrev pub moved : Turn → Place → Place
moved t w = record w { entry = t.others w.entry }

unfoldable pub is_live : Entry → Bool
is_live absent = false
is_live (regular _) = false
is_live (socket _ live) = live

unfoldable pub is_socket : Entry → Bool
is_socket absent = false
is_socket (regular _) = false
is_socket (socket _ _) = true

abbrev pub same_file : Identity → Identity → Bool
same_file a b = (a.ino == b.ino) && (a.dev == b.dev)

-- `Stat`
unfoldable pub stat_path : Entry → Option Identity
stat_path absent = none
stat_path (regular file) = some file
stat_path (socket file _) = some file

-- One attempt to connect, `TryConnect` with its descriptor: `none` is a refused connection.
unfoldable pub try_connect : Turn → Entry → Option Outcome
unfolding is_live
try_connect t e =
    if t.opens then (if is_live e && t.answers then some joined else none) else some failed

-- `os.Remove`
unfoldable pub remove_path : Place → Place
remove_path w = elim w.entry [ absent ↦ w | e ↦ record { entry = absent; removed = e ∷ w.removed } ]

-- Only a socket file is unlinked, by what `os.Stat` said of the path.
unfoldable pub clear_path : Turns → Place → Place
unfolding is_socket remove_path
clear_path t w =
    let w1 = moved t.stat w in if is_socket w1.entry then remove_path (moved t.remove w1) else w1

-- From `listen` on, the path names a listener if it still names the file that was bound.
unfoldable pub answering : Identity → Entry → Entry
answering me absent = absent
answering me (regular file) = regular file
answering me (socket file live) = if same_file file me then socket file true else socket file live

unfoldable pub new_listener : Identity → Entry → Listener
unfolding stat_path
new_listener me e = elim (stat_path e) [
  | none ↦ record { bound = me; captured = record { ino = 0; dev = 0 } }
  | some file ↦ record { bound = me; captured = file }
]

unfoldable pub listen_hub : Identity → ℕ → Turns → Place → Outcome × Place
unfolding remove_path answering new_listener
listen_hub me mode t w =
    let w1 = moved t.listen w in
    let w2 = moved t.capture (record w1 { entry = answering me w1.entry }) in
    if t.listen.opens
    then (listens (if mode == 0 then 384 else mode) (new_listener me w2.entry), w2)
    else (failed, remove_path (moved t.cleanup w1))

-- The bind failed: another instance may have won the path.
unfoldable pub lost_race : Turns → Place → Outcome × Place
unfolding try_connect
lost_race t w =
    let w1 = moved t.third w in
    elim (try_connect t.third w1.entry) [ none ↦ (failed, w1) | some out ↦ (out, w1) ]

-- `me` is the identity that the kernel gives the socket file.
unfoldable pub bind_path : Identity → ℕ → Turns → Place → Outcome × Place
unfolding listen_hub lost_race
bind_path me mode t w = elim w.entry [
  | absent ↦
      if t.bind.opens
      then listen_hub me mode t (record w { entry = socket me false })
      else lost_race t w
  | _ ↦ lost_race t w
]

unfoldable pub bind_hub : Identity → ℕ → Turns → Place → Outcome × Place
unfolding clear_path bind_path
bind_hub me mode t w =
    let w1 = moved t.hub_socket (clear_path t w) in
    if t.hub_socket.opens then bind_path me mode t (moved t.bind w1) else (failed, w1)

unfoldable pub retry_connect : Identity → ℕ → Turns → Place → Outcome × Place
unfolding try_connect bind_hub
retry_connect me mode t w =
    let w1 = moved t.second w in
    elim (try_connect t.second w1.entry) [ none ↦ bind_hub me mode t w1 | some out ↦ (out, w1) ]

unfoldable pub bind_or_connect : Identity → ℕ → Turns → Entry → Outcome × Place
unfolding try_connect retry_connect
bind_or_connect me mode t e =
    let w : Place = moved t.first (record { entry = e; removed = [] }) in
    elim (try_connect t.first w.entry) [ none ↦ retry_connect me mode t w | some out ↦ (out, w) ]

-- Nobody answers any more at the file of a descriptor that is closed.
unfoldable pub hang_up : Identity → Entry → Entry
hang_up me absent = absent
hang_up me (regular file) = regular file
hang_up me (socket file live) = if same_file file me then socket file false else socket file live

-- `Listener.Close`, with what the path names after it.
unfoldable pub close : Listener → Entry → Entry
unfolding stat_path hang_up
close ln e =
    let e1 = hang_up ln.bound e in
    if ln.captured.ino == 0 then e1 else elim (stat_path e) [
      | none ↦ e1
      | some file ↦ if same_file file ln.captured then absent else e1
    ]
