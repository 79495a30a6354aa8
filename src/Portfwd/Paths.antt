-- ===== src/Portfwd/Paths.antt =====
-- The UDP relay of vdeplug-go/internal/portfwd/portfwd.go (`serveUDP`): one guest socket for each host
-- sender. The mutex makes each access of the path list a step; times are nanoseconds.
pub mod Senders
use uml_kernel_build.Common.{
  ℕ, ◌+◌, ◌-◌, ◌*◌, Bool, ◌&&◌, Option, none, some, List, [], ◌∷◌, ◌++◌, ltb, ◌==◌, if◌then◌else◌,
  nat_eq, bytes_eq, Bytes, bytes_beq,
}

-- `ip` is the sender's address in the one form that `IP.Equal` compares, `guest` the handle of the
-- socket towards the guest.
pub record Route : Type 0 where
  pub ip : Bytes
  pub port : ℕ
  pub guest : ℕ
  pub last : ℕ

-- `closed` are the guest sockets that were closed, `next` is the handle of the next one opened.
pub record PathTable : Type 0 where
  pub paths : List Route
  pub next : ℕ
  pub closed : List ℕ

abbrev pub udp_idle : ℕ
udp_idle = 30 * 1_000_000_000

abbrev pub from_sender : Bytes → ℕ → Route → Bool
from_sender ip port p = bytes_beq p.ip ip && (p.port == port)

-- The first path of the sender.
unfoldable pub find_path : Bytes → ℕ → List Route → Option Route
find_path ip port [] = none
find_path ip port (p ∷ paths) =
    let rest = find_path ip port paths in if from_sender ip port p then some p else rest

-- `p.last = now` on the path that `find_path` found.
unfoldable pub touch : Bytes → ℕ → ℕ → List Route → List Route
touch ip port now [] = []
touch ip port now (p ∷ paths) =
    let rest = touch ip port now paths in
    if from_sender ip port p then record p { last = now } ∷ paths else p ∷ rest

-- One datagram of the host: the guest socket that it is written to, none where no socket towards the
-- guest can be had (`opens` is false).
unfoldable pub receive : ℕ → Bool → Bytes → ℕ → PathTable → Option ℕ × PathTable
unfolding find_path touch
receive now opens ip port r = elim (find_path ip port r.paths) [
  | some p ↦ (some p.guest, record r { paths = touch ip port now r.paths })
  | none ↦
      if opens
      then (
        some r.next,
        record r {
          paths = r.paths ++ (record { ip = ip; port = port; guest = r.next; last = now } ∷ []);
          next = r.next + 1;
        },
      )
      else (none, r)
]

-- The reaper: the paths that stay, and the sockets that are closed.
unfoldable pub reap_paths : ℕ → List Route → List Route × List ℕ
reap_paths now [] = ([], [])
reap_paths now (p ∷ paths) =
    let (keep, shut) = reap_paths now paths in
    if ltb udp_idle (now - p.last) then (keep, p.guest ∷ shut) else (p ∷ keep, shut)

unfoldable pub reap : ℕ → PathTable → PathTable
unfolding reap_paths
reap now r =
    let (keep, shut) = reap_paths now r.paths in
    record r { paths = keep; closed = r.closed ++ shut }

-- The end of a guest socket's reader takes its path out.
unfoldable pub drop_path : ℕ → List Route → List Route
drop_path guest [] = []
drop_path guest (p ∷ paths) =
    let rest = drop_path guest paths in if p.guest == guest then rest else p ∷ rest

unfoldable pub reader_ends : ℕ → PathTable → PathTable
unfolding drop_path
reader_ends guest r = record r {
  paths = drop_path guest r.paths;
  closed = r.closed ++ (guest ∷ []);
}
