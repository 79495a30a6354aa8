-- ===== src/Portfwd.antt =====
-- `Start` of vdeplug-go/internal/portfwd/portfwd.go: one host socket for each port-forwarding rule, all
-- of them or none.
pub mod Cleanup
pub mod Paths
use uml_kernel_build.Common.{
  ℕ, ◌+◌, ◌%◌, Bool, Option, none, some, List, [], ◌∷◌, ◌++◌, ltb, ◌==◌, if◌then◌else◌, nat_eq,
  bytes_eq, take, Bytes, copy_n,
}
use uml_kernel_build.Config.Strings.{Text}
use uml_kernel_build.Config.{Forward, Config, parse_ports}

-- The sockets of the process, by handle; the next one opened gets the handle `next`.
pub record Sockets : Type 0 where
  pub next : ℕ
  pub held : List ℕ

-- What a goroutine serves: the socket, the protocol, and the guest's address and port.
pub record Service : Type 0 where
  pub socket : ℕ
  pub udp : Bool
  pub guest_ip : Text
  pub guest_port : ℕ

pub data Started : Type 0 where
  serving : (services : List Service) → Started
  refused : Started

unfoldable pub close : ℕ → List ℕ → List ℕ
close k [] = []
close k (j ∷ held) = let rest = close k held in if k == j then rest else j ∷ rest

unfoldable pub close_all : List ℕ → List ℕ → List ℕ
unfolding close
close_all [] held = held
close_all (k ∷ opened) held = close_all opened (close k held)

-- `ParseIP` with `To4`, `IP.String`, and whether the host lets a socket be bound for a rule while
-- others are held: what the packages net and the system decide.
pub record Host : Type 0 where
  pub to4 : Text → Option Bytes
  pub text_of : Bytes → Text
  pub valid_ip : Text → Bool
  pub can_bind : List ℕ → Forward → Bool

module _ (h : Host) where
  -- The guest that a rule leads to; `fallback` is `fallbackIP.To4()`.
  unfoldable pub guest_of : Option Bytes → Forward → Option Text
  guest_of fallback r =
      let pinned : Option Text = elim r.guest_ip [
        | [] ↦ elim fallback [ none ↦ none | some ip4 ↦ some (h.text_of ip4) ]
        | c ∷ ip ↦ some (c ∷ ip)
      ] in
      elim pinned [
        | none ↦ none
        | some guest ↦
            let chosen : Option Text =
              if ltb 0 r.last_octet
              then elim fallback [
                | none ↦ none
                | some ip4 ↦ some (h.text_of (take 3 (copy_n 4 ip4) ++ ((r.last_octet % 256) ∷ [])))
              ]
              else some guest in
            elim chosen [
              | none ↦ none
              | some ip ↦ elim (h.to4 ip) [ none ↦ none | some _ ↦ some ip ]
            ]
      ]

  -- The loop over the rules. `opened` and `services` are what it has opened and started, in order.
  unfoldable pub start_rules :
      Option Bytes → List Forward → List ℕ → List Service → Sockets → Started × Sockets
  unfolding guest_of close_all
  start_rules fallback [] opened services w = (serving services, w)
  start_rules fallback (r ∷ rules) opened services w =
      let aborted : Started × Sockets = (refused, record w { held = close_all opened w.held }) in
      elim (guest_of fallback r) [
        | none ↦ aborted
        | some guest ↦
            let service : Service = record {
              socket = w.next;
              udp = r.udp;
              guest_ip = guest;
              guest_port = r.guest_port;
            } in
            let rest =
              start_rules fallback rules (opened ++ (w.next ∷ [])) (services ++ (service ∷ []))
                (record { next = w.next + 1; held = w.next ∷ w.held }) in
            if h.can_bind w.held r then rest else aborted
      ]

  unfoldable pub start : Option Bytes → Config → Sockets → Started × Sockets
  unfolding start_rules
  start fallback c w = elim (parse_ports h.valid_ip c) [
    | none ↦ (refused, w)
    | some rules ↦ start_rules fallback rules [] [] w
  ]
