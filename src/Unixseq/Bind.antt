-- ===== src/Unixseq/Bind.antt =====
-- What `BindOrConnect` does to the socket file, alone and in a race.
use uml_kernel_build.Common.{
  ℕ, ◌≡◌, inl, inr, refl, Bool, true, false, not, none, List, [], ◌∷◌, arith, ◌==◌, if◌then◌else◌,
  Bool-cases, Option-cases, nat_eq, bytes_eq, All,
}
use uml_kernel_build.Unixseq.{
  Identity, Entry, absent, regular, socket, Outcome, listens, joined, failed, Turn, Turns, Place,
  is_live, is_socket, try_connect, remove_path, clear_path, answering, new_listener, listen_hub,
  lost_race, bind_path, bind_hub, retry_connect, bind_or_connect, stat_path,
}

-- No other process touches the path, and every call is granted.
abbrev pub calm : Turn
calm = record { others = λ e. e; opens = true; answers = true }

abbrev pub alone : Turns
alone = record {
  first = calm;
  second = calm;
  stat = calm;
  remove = calm;
  hub_socket = calm;
  bind = calm;
  third = calm;
  listen = calm;
  cleanup = calm;
  capture = calm;
}

-- What a caller may expect of the path that it finds.
unfoldable pub Expected : Identity → ℕ → Entry → Outcome × Place → Type 0
Expected me chmod (socket file true) r =
    r ≡ (joined, record { entry = socket file true; removed = [] })
Expected me chmod (regular file) r = r ≡ (failed, record { entry = regular file; removed = [] })
Expected me chmod (socket file false) r = r ≡ (
  listens chmod (record { bound = me; captured = me }),
  record { entry = socket me true; removed = socket file false ∷ [] },
)
Expected me chmod absent r = r ≡ (
  listens chmod (record { bound = me; captured = me }),
  record { entry = socket me true; removed = [] },
)

-- When no other process touches the path and every call is granted: a listener that answers is joined,
-- a file that is not a socket is left alone and the call fails, and otherwise the caller listens at the
-- path with the identity of its own socket file and the mode asked for (0600 for 0), after a socket
-- file without a listener was unlinked.
pub bind_or_connect-alone :
    (me : Identity) (mode : ℕ) (e : Entry)
    → Expected me (if mode == 0 then 384 else mode) e (bind_or_connect me mode alone e)
unfolding Expected bind_or_connect try_connect retry_connect bind_hub bind_path listen_hub lost_race
    remove_path answering new_listener clear_path is_live is_socket stat_path
bind_or_connect-alone me mode absent = ground arith
bind_or_connect-alone me mode (regular file) = ground arith
bind_or_connect-alone me mode (socket file true) = ground arith
bind_or_connect-alone me mode (socket file false) = ground arith

-- The other processes leave the path alone before this call.
abbrev pub Quiet : Turn → Type 0
Quiet t = (e : Entry) → t.others e ≡ e

pub is_stale : Entry → Bool
is_stale (socket file live) = not live
is_stale absent = false
is_stale (regular file) = false

Spares : Outcome × Place → Type 0
Spares r = All (λ x. is_stale x ≡ true) r.1.removed

listen_hub-Spares :
    (me : Identity) (mode : ℕ) (t : Turns) (w : Place)
    → w.entry ≡ socket me false
    → All (λ x. is_stale x ≡ true) w.removed
    → Quiet t.listen
    → Quiet t.cleanup
    → Spares (listen_hub me mode t w)
unfolding Spares listen_hub remove_path is_stale
listen_hub-Spares me mode t w at stale q q' = elim (Bool-cases t.listen.opens) [
  | inl ok ↦ rw (ok, listen_hub) stale
  | inr refused ↦
      let e : t.cleanup.others (t.listen.others w.entry) ≡ socket me false =
        rw (q w.entry, q' w.entry) at in
      rw (refused, listen_hub, remove_path, e) (refl, stale)
]

lost_race-Spares :
    (t : Turns) (w : Place) → All (λ x. is_stale x ≡ true) w.removed → Spares (lost_race t w)
unfolding Spares lost_race
lost_race-Spares t w stale = elim (Option-cases (try_connect t.third (t.third.others w.entry))) [
  | inl e ↦ rw (e, lost_race) stale
  | inr (out, e) ↦ rw (e, lost_race) stale
]

bind_path-Spares :
    (me : Identity) (mode : ℕ) (t : Turns) (e : Entry) (removed : List Entry)
    → All (λ x. is_stale x ≡ true) removed
    → Quiet t.listen
    → Quiet t.cleanup
    → Spares (bind_path me mode t (record { entry = e; removed = removed }))
unfolding bind_path
bind_path-Spares me mode t absent removed stale q q' = elim (Bool-cases t.bind.opens) [
  | inl ok ↦
      rw (ok, bind_path)
        (listen_hub-Spares me mode t (record { entry = socket me false; removed = removed }) refl
          stale q q')
  | inr refused ↦
      rw (refused, bind_path)
        (lost_race-Spares t (record { entry = absent; removed = removed }) stale)
]
bind_path-Spares me mode t (regular file) removed stale q q' = lost_race-Spares t _ stale
bind_path-Spares me mode t (socket file live) removed stale q q' = lost_race-Spares t _ stale

clear_path-stale :
    (t : Turns) (e : Entry)
    → is_live e ≡ false
    → Quiet t.stat
    → Quiet t.remove
    → All (λ x. is_stale x ≡ true) (clear_path t (record { entry = e; removed = [] })).removed
unfolding clear_path remove_path is_socket is_live is_stale
clear_path-stale t absent dead q q' = rw (q absent) tt
clear_path-stale t (regular file) dead q q' = rw (q (regular file)) tt
clear_path-stale t (socket file live) dead q q' =
    rw (q (socket file live), q' (socket file live), is_socket, remove_path) ground (arith, dead)

bind_hub-Spares :
    (me : Identity) (mode : ℕ) (t : Turns) (e : Entry)
    → is_live e ≡ false
    → Quiet t.stat
    → Quiet t.remove
    → Quiet t.listen
    → Quiet t.cleanup
    → Spares (bind_hub me mode t (record { entry = e; removed = [] }))
unfolding bind_hub
bind_hub-Spares me mode t e dead q q' r r' =
    let stale = clear_path-stale t e dead q q' in
    elim (Bool-cases t.hub_socket.opens) [
      | inl ok ↦ rw (ok, bind_hub) (bind_path-Spares me mode t _ _ stale r r')
      | inr refused ↦ rw (refused, bind_hub) (unfold Spares in stale)
    ]

try_connect-none :
    (t : Turn) (e : Entry) → t.answers ≡ true → try_connect t e ≡ none → is_live e ≡ false
unfolding try_connect
try_connect-none t e answers refused = ground arith

retry_connect-Spares :
    (me : Identity) (mode : ℕ) (t : Turns) (e : Entry)
    → t.second.answers ≡ true
    → Quiet t.stat
    → Quiet t.remove
    → Quiet t.listen
    → Quiet t.cleanup
    → Spares (retry_connect me mode t (record { entry = e; removed = [] }))
unfolding retry_connect
retry_connect-Spares me mode t e answers q q' r r' =
    elim (Option-cases (try_connect t.second (t.second.others e))) [
      | inl refused ↦
          rw (refused, retry_connect)
            (bind_hub-Spares me mode t (t.second.others e)
              (try_connect-none t.second (t.second.others e) answers refused) q q' r r')
      | inr (out, found) ↦ rw (found, retry_connect) (unfold Spares in tt)
    ]

-- Whatever other processes do to the path before the two attempts to connect, between the unlink and
-- the bind, after a lost race or before the identity is read, and whichever calls fail: if they leave
-- it alone from the second attempt to the unlink and from the bind to the clean-up, and that attempt
-- is not refused by a living listener, `BindOrConnect` removes nothing but sockets without a listener.
pub bind_or_connect_spares :
    (me : Identity) (mode : ℕ) (t : Turns) (e : Entry)
    → t.second.answers ≡ true
    → Quiet t.stat
    → Quiet t.remove
    → Quiet t.listen
    → Quiet t.cleanup
    → All (λ x. is_stale x ≡ true) (bind_or_connect me mode t e).1.removed
unfolding bind_or_connect Spares
bind_or_connect_spares me mode t e answers q q' r r' =
    elim (Option-cases (try_connect t.first (t.first.others e))) [
      | inl refused ↦
          rw (refused, bind_or_connect)
            (retry_connect-Spares me mode t (t.first.others e) answers q q' r r')
      | inr (out, found) ↦ rw (found, bind_or_connect) tt
    ]
