-- ===== src/Transport/Addresses.antt =====
-- Which socket an address names: IsTCP, TryConnect, BindOrConnect and the listener of
-- vdeplug-go/internal/transport/transport.go.
use uml_kernel_build.Common.{
  ℕ, ◌≡◌, refl, Bool, true, false, Option, none, some, [], ◌∷◌, ◌==◌, if◌then◌else◌, nat_eq,
  bytes_eq,
}
use uml_kernel_build.Config.Strings.{Text, atoi}
use uml_kernel_build.Unixseq as Sockets
use uml_kernel_build.Unixseq.{
  Identity, Entry, Listener, Outcome, listens, joined, failed, Turn, Turns, Place, moved, close,
}

-- `split_host_port` gives the port of `net.SplitHostPort`; `dials` and `listens` are the answers of
-- `net.DialTimeout` and `net.Listen` to an address.
pub record Tcp : Type 0 where
  pub split_host_port : Text → Option Text
  pub dials : Text → Bool
  pub listens : Text → Bool

-- What a caller gets: the listener of the hub, the wire of a peer, or an error.
pub data Found : Type 0 where
  tcp_hub tcp_peer unix_peer refused : Found
  unix_hub : (ln : Listener) → Found

unfoldable pub has_slash : Text → Bool
has_slash [] = false
has_slash (c ∷ s) = let rest = has_slash s in if c == 47 then true else rest

unfoldable pub found_of : Outcome → Found
found_of (listens _ ln) = unix_hub ln
found_of joined = unix_peer
found_of failed = refused

-- `unixListener.Close` closes the listener of the socket file, which may remove it; `path` is what it
-- names.
unfoldable pub close_found : Found → Entry → Entry
unfolding close
close_found (unix_hub ln) path = close ln path
close_found _ path = path

module _ (t : Tcp) where
  unfoldable pub is_tcp : Text → Bool
  unfolding has_slash atoi
  is_tcp addr = if has_slash addr then false else elim (t.split_host_port addr) [
    | none ↦ false
    | some port ↦ elim (atoi port) [ none ↦ false | some _ ↦ true ]
  ]

  -- `turn` and `path` are as in `Unixseq`.
  unfoldable pub try_connect : Turn → Text → Entry → Found
  unfolding is_tcp found_of Sockets.try_connect
  try_connect turn addr path =
      if is_tcp addr
      then (if t.dials addr then tcp_peer else refused)
      else elim (Sockets.try_connect turn (turn.others path)) [
        | none ↦ refused
        | some out ↦ found_of out
      ]

  unfoldable pub bind_or_connect : Identity → ℕ → Turns → Text → Entry → Found × Place
  unfolding is_tcp found_of Sockets.bind_or_connect
  bind_or_connect me mode turns addr path =
      if is_tcp addr
      then (
        if t.dials addr then tcp_peer else if t.listens addr then tcp_hub else refused,
        record { entry = path; removed = [] },
      )
      else let (out, w) = Sockets.bind_or_connect me mode turns path in (found_of out, w)

  -- An address with a slash is a path, whatever its other characters.
  pub is_tcp_path : (addr : Text) → has_slash addr ≡ true → is_tcp addr ≡ false
  unfolding is_tcp
  is_tcp_path addr h = rw h refl
