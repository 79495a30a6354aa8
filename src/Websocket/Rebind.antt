-- ===== src/Websocket/Rebind.antt =====
-- What the connecting side does when its listener is lost.
use uml_kernel_build.Common.{
  ℕ, zero, suc, ◌≡◌, ◌≢◌, ◌⊎◌, inl, inr, refl, ap, ◌∙◌, Bool, true, false, not, List, [], ◌∷◌,
  arith, if◌then◌else◌, Bool-cases, nat_eq, bytes_eq,
}
use uml_kernel_build.Unixseq.{
  Identity, Entry, absent, regular, socket, Outcome, listens, joined, failed, stat_path,
  bind_or_connect,
}
use uml_kernel_build.Unixseq.Bind.{alone, Expected, bind_or_connect-alone}
use uml_kernel_build.Unixseq.Close.{names, own_listener, close-own_listener}
use uml_kernel_build.Websocket.{
  Watched, accept_ended, tick, ended, watch_listener, after_bind, Round, listening, fatal,
  connect_loop,
}

-- A path where the helper can listen: nothing, or a socket file without a listener.
unfoldable pub is_free : Entry → Bool
is_free absent = true
is_free (regular file) = false
is_free (socket file live) = not live

-- What the helper finds when it binds at a path that nobody else touches.
bound_at :
    (me : Identity) (e : Entry)
    → is_free e ≡ true
    → (removed : List Entry) × (bind_or_connect me 384 alone e
        ≡ (listens 384 (own_listener me), record { entry = socket me true; removed = removed }))
unfolding is_free Expected
bound_at me absent h = ([], bind_or_connect-alone me 384 absent)
bound_at me (regular file) h = cc
bound_at me (socket file true) h = cc
bound_at me (socket file false) h =
    (socket file false ∷ [], bind_or_connect-alone me 384 (socket file false))

taken_at :
    (me : Identity) (e : Entry)
    → is_free e ≡ false
    → (out : Outcome) × (bind_or_connect me 384 alone e ≡ (out, record { entry = e; removed = [] }))
      × ((out ≡ joined) ⊎ (out ≡ failed))
unfolding is_free Expected
taken_at me absent h = cc
taken_at me (regular file) h = (failed, bind_or_connect-alone me 384 (regular file), inr refl)
taken_at me (socket file true) h =
    (joined, bind_or_connect-alone me 384 (socket file true), inl refl)
taken_at me (socket file false) h = cc

-- `n` rounds of the watch in which the path names the helper's own socket.
unfoldable pub own_ticks : ℕ → Identity → List Watched → List Watched
own_ticks zero me rest = rest
own_ticks (suc n) me rest = tick (socket me true) ∷ own_ticks n me rest

watch_listener-own_ticks :
    (n : ℕ) (me : Identity) (rest : List Watched)
    → watch_listener (own_listener me) (socket me true) (own_ticks n me rest)
      ≡ watch_listener (own_listener me) (socket me true) rest
unfolding own_ticks watch_listener stat_path
watch_listener-own_ticks zero me rest = refl
watch_listener-own_ticks (suc n) me rest = ground (arith, watch_listener-own_ticks n me rest)

watch_listener-other :
    (me : Identity) (found : Entry)
    → me.ino ≢ 0
    → names found me ≡ false
    → watch_listener (own_listener me) (socket me true) (tick found ∷ []) ≡ ended found
unfolding watch_listener stat_path names
watch_listener-other me absent inode other =
    ap ended (rw (close-own_listener me absent inode) (ground arith))
watch_listener-other me (regular file) inode other =
    rw (other, close-own_listener me (regular file) inode) (ground (arith, other))
watch_listener-other me (socket file live) inode other =
    rw (other, close-own_listener me (socket file live) inode) (ground (arith, other))

first_round :
    (me : Identity) (e path : Entry) (seen : List Watched) (rounds : List Round)
    → is_free e ≡ true
    → watch_listener (own_listener me) (socket me true) seen ≡ ended path
    → connect_loop (record { me = me; turns = alone; seen = seen } ∷ rounds) e
      ≡ connect_loop rounds path
unfolding connect_loop after_bind
first_round me e path seen rounds free over =
    let (removed, at) = bound_at me e free in rw (at, after_bind, over) refl

-- A round that does not end.
last_round :
    (me : Identity) (e : Entry)
    → connect_loop (record { me = me; turns = alone; seen = [] } ∷ []) e
      ≡ (if is_free e then listening (socket me true) else fatal e)
unfolding connect_loop after_bind watch_listener
last_round me e = elim (Bool-cases (is_free e)) [
  | inl free ↦ let (removed, at) = bound_at me e free in rw (at, free) refl
  | inr taken ↦
      let (out, at, how) = taken_at me e taken in
      elim how [ inl j ↦ rw (at, j, taken) refl | inr f ↦ rw (at, f, taken) refl ]
]

-- The helper binds at a free path that no call of another process races for, on a file whose inode is
-- not 0, and its watch sees its own socket any number of times. If then the accept loop ends, the
-- next bind finds the helper's own listener, which nobody closed, and the helper dies. If the watch
-- finds something else at the path, that stays as it is: the helper listens again if the path is
-- free, and dies if it names a living listener or another file.
pub next_round :
    (me me' : Identity) (e found : Entry) (n : ℕ)
    → is_free e ≡ true
    → me.ino ≢ 0
    → names found me ≡ false
    → (connect_loop
          (record { me = me; turns = alone; seen = own_ticks n me (accept_ended ∷ []) }
            ∷ record { me = me'; turns = alone; seen = [] }
            ∷ [])
          e
        ≡ fatal (socket me true))
      × (connect_loop
            (record { me = me; turns = alone; seen = own_ticks n me (tick found ∷ []) }
              ∷ record { me = me'; turns = alone; seen = [] }
              ∷ [])
            e
          ≡ (if is_free found then listening (socket me' true) else fatal found))
unfolding is_free watch_listener
next_round me me' e found n free inode other =
    let kept : watch_listener (own_listener me) (socket me true)
          (own_ticks n me (accept_ended ∷ []))
        ≡ ended (socket me true) =
      watch_listener-own_ticks n me (accept_ended ∷ []) in
    let lost : watch_listener (own_listener me) (socket me true) (own_ticks n me (tick found ∷ []))
        ≡ ended found =
      watch_listener-own_ticks n me (tick found ∷ []) ∙ watch_listener-other me found inode other in
    (
      first_round me e (socket me true) _ _ free kept ∙ last_round me' (socket me true),
      first_round me e found _ _ free lost ∙ last_round me' found,
    )
