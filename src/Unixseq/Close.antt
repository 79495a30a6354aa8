-- ===== src/Unixseq/Close.antt =====
-- Which file `Close` removes.
use uml_kernel_build.Common.{ℕ, ◌≡◌, ◌≢◌, Bool, true, false, arith, if◌then◌else◌, nat_eq, bytes_eq}
use uml_kernel_build.Unixseq.{
  Identity, Entry, absent, regular, socket, Listener, listens, Place, same_file, stat_path, hang_up,
  close, bind_or_connect,
}
use uml_kernel_build.Unixseq.Bind.{alone, Expected, bind_or_connect-alone}

same_file_eq : (a b : Identity) → same_file a b ≡ true → a ≡ b
same_file_eq a b h = ground arith

pub same_file_self : (a : Identity) → same_file a a ≡ true
same_file_self a = ground arith

-- The file at the path is this one.
unfoldable pub names : Entry → Identity → Bool
names absent me = false
names (regular file) me = same_file file me
names (socket file live) me = same_file file me

abbrev pub own_listener : Identity → Listener
own_listener me = record { bound = me; captured = me }

pub close-own_listener :
    (me : Identity) (e : Entry)
    → me.ino ≢ 0
    → close (own_listener me) e ≡ (if names e me then absent else e)
unfolding names close stat_path hang_up
close-own_listener me absent h = ground arith
close-own_listener me (regular file) h = ground arith
close-own_listener me (socket file live) h = ground arith

-- A listener of `BindOrConnect` is its own file's.
pub bind_or_connect_listener :
    (me : Identity) (mode chmod : ℕ) (e : Entry) (ln : Listener) (w : Place)
    → bind_or_connect me mode alone e ≡ (listens chmod ln, w)
    → (ln ≡ own_listener me) × (w.entry ≡ socket me true)
unfolding Expected
bind_or_connect_listener me mode chmod absent ln w h =
    ground (arith, bind_or_connect-alone me mode absent, h)
bind_or_connect_listener me mode chmod (regular file) ln w h =
    ground (arith, bind_or_connect-alone me mode (regular file), h)
bind_or_connect_listener me mode chmod (socket file true) ln w h =
    ground (arith, bind_or_connect-alone me mode (socket file true), h)
bind_or_connect_listener me mode chmod (socket file false) ln w h =
    ground (arith, bind_or_connect-alone me mode (socket file false), h)

-- A listener that was bound while nobody else touched the path, on a file whose inode is not 0, and
-- that is closed when the path names anything: its own file is removed, and whatever else is there
-- stays as it is, answering or not.
pub close-bind_or_connect :
    (me : Identity) (mode chmod : ℕ) (e later : Entry) (ln : Listener) (w : Place)
    → bind_or_connect me mode alone e ≡ (listens chmod ln, w)
    → me.ino ≢ 0
    → close ln later ≡ (if names later me then absent else later)
close-bind_or_connect me mode chmod e later ln w h inode =
    rw ((bind_or_connect_listener me mode chmod e ln w h).0) (close-own_listener me later inode)
