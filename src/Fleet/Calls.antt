-- ===== src/Fleet/Calls.antt =====
-- The steps of a seated instance against the system calls of `BindOrConnect`.
use uml_kernel_build.Common.{
  ℕ, ◌≡◌, inl, inr, refl, sym, ap, ◌∙◌, Bool, true, false, none, some, arith, ◌==◌, if◌then◌else◌,
  Bool-cases, Option-cases, nat_eq, bytes_eq,
}
use uml_kernel_build.Fleet.{
  Phase, discovering, peer, seated, cleared, hub, gone, World, listening, release, probe, bind,
}
use uml_kernel_build.Unixseq.{Identity, Entry, absent, socket, listens, joined, bind_or_connect}
use uml_kernel_build.Unixseq.Bind.{alone, Expected, bind_or_connect-alone}
use uml_kernel_build.Unixseq.Close.{own_listener}

-- A hub listens, and nobody else.
unfoldable pub hub_phase : Phase → Bool
hub_phase hub = true
hub_phase _ = false

only_hub : (a : Phase) → (elim a as (λ _. Bool) [ hub ↦ true | _ ↦ false ]) ≡ hub_phase a
unfolding hub_phase
only_hub hub = refl
only_hub discovering = refl
only_hub peer = refl
only_hub seated = refl
only_hub cleared = refl
only_hub gone = refl

module _ (ident : ℕ → Identity) where
  -- What the socket path names in a world; `ident` is the identity of the file that an instance binds.
  unfoldable pub path_of : World → Entry
  unfolding hub_phase
  path_of w = elim w.file [ none ↦ absent | some j ↦ socket (ident j) (hub_phase (w.phase j)) ]

  -- The two steps of `BindOrConnect` in the failover loop.
  unfoldable pub take_path : ℕ → World → World
  unfolding probe bind listening
  take_path i w = if listening w then probe i w else bind i (probe i w)

  listening-hub_phase : (w : World) (j : ℕ) → w.file ≡ some j → listening w ≡ hub_phase (w.phase j)
  unfolding listening
  listening-hub_phase w j at = rw (at, listening) (only_hub (w.phase j))

  -- Without a listener the instance becomes the hub at the path.
  take_path_hub :
      (i : ℕ) (w : World) → listening w ≡ false → path_of (take_path i w) ≡ socket (ident i) true
  unfolding take_path probe bind path_of hub_phase
  take_path_hub i w quiet =
      let same : (i == i) ≡ true = ground arith in rw (quiet, take_path, probe) (rw same refl)

  -- A listener is another instance's, and stays as it is.
  take_path_joined :
      (i j : ℕ) (w : World)
      → w.phase i ≡ seated
      → w.file ≡ some j
      → hub_phase (w.phase j) ≡ true
      → path_of (take_path i w) ≡ socket (ident j) true
  unfolding take_path probe release path_of
  take_path_joined i j w sits at hubs =
      let heard : listening w ≡ true = listening-hub_phase w j at ∙ hubs in
      let other : (i == j) ≡ false = elim (Bool-cases (i == j)) [
        | inl same ↦
            let e : i ≡ j = ground arith in
            let sits' : w.phase j ≡ seated = rw (← e) sits in
            absurd (unfold hub_phase in cc (rw sits' at hubs))
        | inr differs ↦ differs
      ] in
      rw (heard, take_path, probe) (rw (at, release) (rw (other, hubs) refl))

  path_of-none : (w : World) → w.file ≡ none → (path_of w ≡ absent) × (listening w ≡ false)
  unfolding path_of listening
  path_of-none w at = (rw (at, path_of) refl, rw (at, listening) refl)

  path_of-some :
      (w : World) (j : ℕ) (live : Bool)
      → w.file ≡ some j
      → hub_phase (w.phase j) ≡ live
      → (path_of w ≡ socket (ident j) live) × (listening w ≡ live)
  unfolding path_of
  path_of-some w j live at is = (rw (at, path_of) (rw is refl), listening-hub_phase w j at ∙ is)

  -- What an instance that holds the seat gets from the system calls of `BindOrConnect`, alone at
  -- the path, and what the path names after them, are those of the steps of the failover loop: it
  -- joins a hub that listens, and otherwise becomes the hub, over a stale socket file if there is one.
  pub bind_or_connect-take_path :
      (i mode : ℕ) (w : World)
      → w.phase i ≡ seated
      → ((bind_or_connect (ident i) mode alone (path_of w)).0 ≡ (
          if listening w
          then joined
          else listens (if mode == 0 then 384 else mode) (own_listener (ident i))))
        × ((bind_or_connect (ident i) mode alone (path_of w)).1.entry ≡ path_of (take_path i w))
  unfolding Expected
  bind_or_connect-take_path i mode w h = elim (Option-cases w.file) [
    | inl at ↦
        let (found, quiet) = path_of-none w at in
        let r = bind_or_connect-alone (ident i) mode absent in
        rw (found, quiet) (ap (λ x. x.0) r, ap (λ x. x.1.entry) r ∙ sym (take_path_hub i w quiet))
    | inr (j, at) ↦ elim (Bool-cases (hub_phase (w.phase j))) [
      | inl hubs ↦
          let (found, heard) = path_of-some w j true at hubs in
          let r = bind_or_connect-alone (ident i) mode (socket (ident j) true) in
          rw (found, heard)
            (ap (λ x. x.0) r, ap (λ x. x.1.entry) r ∙ sym (take_path_joined i j w h at hubs))
      | inr stale ↦
          let (found, quiet) = path_of-some w j false at stale in
          let r = bind_or_connect-alone (ident i) mode (socket (ident j) false) in
          rw (found, quiet) (ap (λ x. x.0) r, ap (λ x. x.1.entry) r ∙ sym (take_path_hub i w quiet))
    ]
  ]
