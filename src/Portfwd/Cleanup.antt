-- ===== src/Portfwd/Cleanup.antt =====
-- Port forwarding starts whole or leaves nothing behind.
use uml_kernel_build.Common.{
  ℕ, ◌+◌, ◌≤◌, ◌<◌, ◌≡◌, ◌≢◌, inl, inr, refl, ap, ◌∙◌, true, false, Option, none, some, List, [],
  ◌∷◌, ◌++◌, arith, ◌==◌, Bool-cases, Option-cases, nat_eq, bytes_eq, All, All-append, All-map,
  Bytes,
}
use uml_kernel_build.Config.Strings.{Text}
use uml_kernel_build.Config.{Forward, Config, parse_ports}
use uml_kernel_build.Portfwd.{
  Sockets, Service, serving, refused, close, close_all, Host, guest_of, start_rules, start,
}

Below : ℕ → List ℕ → Type 0
Below n l = All (λ k. k < n) l

close_absent : (k : ℕ) (held : List ℕ) → Below k held → close k held ≡ held
unfolding close Below
close_absent k [] b = refl
close_absent k (j ∷ held) b =
    let ne : (k == j) ≡ false = ground (arith, b.0) in
    rw (ne, close) (ap (◌∷◌ j) (close_absent k held b.1))

-- Closing older sockets leaves a new one, which is then the last to be closed.
close_all-new :
    (n : ℕ) (opened held : List ℕ)
    → Below n opened
    → close_all (opened ++ (n ∷ [])) (n ∷ held) ≡ close n (close_all opened held)
unfolding close_all close Below
close_all-new n [] held b =
    let same : (n == n) ≡ true = ground arith in rw (same, close_all, close) refl
close_all-new n (k ∷ opened) held b =
    let ne : (k == n) ≡ false = ground (arith, b.0) in
    rw (ne, close_all, close) (close_all-new n opened (close k held) b.1)

Below-le : (n m : ℕ) (l : List ℕ) → n ≤ m → Below n l → Below m l
unfolding Below
Below-le n m l h b = All-map (λ k. k < n) (λ k. k < m) (λ k lt. omega arith) l b

append_nil : (xs : List Service) → xs ++ [] ≡ xs
append_nil [] = refl
append_nil (x ∷ xs) = ap (◌∷◌ x) (append_nil xs)

append_one : (xs ys : List Service) (x : Service) → (xs ++ (x ∷ [])) ++ ys ≡ xs ++ (x ∷ ys)
append_one [] ys x = refl
append_one (y ∷ xs) ys x = ap (◌∷◌ y) (append_one xs ys x)

module _ (h : Host) (fallback : Option Bytes) where
  start_rules_refused :
      (rules : List Forward) (opened : List ℕ) (services : List Service) (w w' : Sockets) (n0 : ℕ)
      (held0 : List ℕ)
      → n0 ≤ w.next
      → Below n0 held0
      → Below w.next opened
      → close_all opened w.held ≡ held0
      → start_rules h fallback rules opened services w ≡ (refused, w')
      → w'.held ≡ held0
  unfolding start_rules
  start_rules_refused [] opened services w w' n0 held0 le old new closes e = absurd (ground arith)
  start_rules_refused (r ∷ rules) opened services w w' n0 held0 le old new closes e =
      elim (Option-cases (guest_of h fallback r)) [
        | inl bad ↦ ground arith
        | inr (guest, g) ↦ elim (Bool-cases (h.can_bind w.held r)) [
          | inr clash ↦ ground arith
          | inl free ↦
              let service : Service = record {
                socket = w.next;
                udp = r.udp;
                guest_ip = guest;
                guest_port = r.guest_port;
              } in
              let v : Sockets = record { next = w.next + 1; held = w.next ∷ w.held } in
              let rest : start_rules h fallback rules (opened ++ (w.next ∷ []))
                    (services ++ (service ∷ [])) v
                  ≡ (refused, w') =
                rw (g, free, start_rules) at e in
              let closes' : close_all (opened ++ (w.next ∷ [])) (w.next ∷ w.held) ≡ held0 =
                close_all-new w.next opened w.held new
                ∙ ap (close w.next) closes
                ∙ close_absent w.next held0 (Below-le n0 w.next held0 le old) in
              let new' : Below (w.next + 1) (opened ++ (w.next ∷ [])) =
                unfold Below in
                All-append (λ k. k < w.next + 1) opened (w.next ∷ [])
                  (Below-le w.next (w.next + 1) opened (omega arith) new) (omega arith, tt) in
              start_rules_refused rules (opened ++ (w.next ∷ [])) (services ++ (service ∷ [])) v w'
                n0 held0 (omega arith) old new' closes' rest
        ]
      ]

  -- When port forwarding is refused, for a bad rule, an unknown guest or a port that cannot be bound,
  -- the process holds the sockets that it held before, and no other.
  pub start_refused :
      (c : Config) (w w' : Sockets)
      → All (λ k. k < w.next) w.held
      → start h fallback c w ≡ (refused, w')
      → w'.held ≡ w.held
  unfolding start Below
  start_refused c w w' old e = elim (Option-cases (parse_ports h.valid_ip c)) [
    | inl bad ↦ ground arith
    | inr (rules, p) ↦
        start_rules_refused rules [] [] w w' w.next w.held (omega arith) old tt
          (unfold close_all in refl) (rw (p, start) at e)
  ]

  -- A service for a rule: the rule's protocol and guest port, and a guest that is an IPv4 address.
  pub ServiceFor : Service → Forward → Type 0
  ServiceFor s r = (s.udp ≡ r.udp) × (s.guest_port ≡ r.guest_port) × (h.to4 s.guest_ip ≢ none)

  pub Services : List Service → List Forward → Type 0
  Services [] [] = Unit
  Services (s ∷ ss) (r ∷ rs) = ServiceFor s r × Services ss rs
  Services _ _ = ⊥

  guest_of-to4 :
      (r : Forward) (guest : Text) → guest_of h fallback r ≡ some guest → h.to4 guest ≢ none
  unfolding guest_of
  guest_of-to4 r guest e = ground arith

  start_rules_serving :
      (rules : List Forward) (opened : List ℕ) (services out : List Service) (w w' : Sockets)
      → start_rules h fallback rules opened services w ≡ (serving out, w')
      → (new : List Service) × (out ≡ services ++ new) × Services new rules
  unfolding start_rules Services ServiceFor
  start_rules_serving [] opened services out w w' e = ([], ground (arith, append_nil services), tt)
  start_rules_serving (r ∷ rules) opened services out w w' e =
      elim (Option-cases (guest_of h fallback r)) [
        | inl bad ↦ absurd (ground arith)
        | inr (guest, g) ↦ elim (Bool-cases (h.can_bind w.held r)) [
          | inr clash ↦ absurd (ground arith)
          | inl free ↦
              let service : Service = record {
                socket = w.next;
                udp = r.udp;
                guest_ip = guest;
                guest_port = r.guest_port;
              } in
              let v : Sockets = record { next = w.next + 1; held = w.next ∷ w.held } in
              let rest : start_rules h fallback rules (opened ++ (w.next ∷ []))
                    (services ++ (service ∷ [])) v
                  ≡ (serving out, w') =
                rw (g, free, start_rules) at e in
              let (new, at, all) =
                start_rules_serving rules (opened ++ (w.next ∷ [])) (services ++ (service ∷ [])) out
                  v w' rest in
              (
                service ∷ new,
                at ∙ append_one services new service,
                ((refl, refl, guest_of-to4 r guest g), all),
              )
        ]
      ]

  -- When port forwarding starts, there is a service for each rule, in the rules' order, with the rule's
  -- protocol and guest port and a guest that is an IPv4 address.
  pub start_serving :
      (c : Config) (services : List Service) (w w' : Sockets)
      → start h fallback c w ≡ (serving services, w')
      → (rules : List Forward) × (parse_ports h.valid_ip c ≡ some rules) × Services services rules
  unfolding start
  start_serving c services w w' e = elim (Option-cases (parse_ports h.valid_ip c)) [
    | inl bad ↦ absurd (ground arith)
    | inr (rules, p) ↦
        let (new, at, all) = start_rules_serving rules [] [] services w w' (rw (p, start) at e) in
        (rules, p, rw at all)
  ]
