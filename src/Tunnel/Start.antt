-- ===== src/Tunnel/Start.antt =====
-- The tunnel of an instance: the WireGuard part of `runInstance` of vdeplug-go/main.go, and the texts of
-- the log of internal/wgup/tunnel.go.
use uml_kernel_build.Common.{
  ℕ, ◌≡◌, refl, ap, ◌∙◌, Bool, true, false, not, Option, none, some, List, [], ◌∷◌, map,
  if◌then◌else◌, nat_eq, bytes_eq, Bytes, codes,
}
use uml_kernel_build.Config.Strings.{Text}
use uml_kernel_build.Wireguard.{Conf}
use uml_kernel_build.Nat.{
  Addresses, Dials, Nat, add_route, set_tunnel_subnets, dials_tunnel, dial_tcp, dial_udp,
}
use uml_kernel_build.Tunnel.{
  Mode, standalone, switched, Networks, Stack, subnet_of, add_routes, set_mode, attach, wg_nic,
}

unfoldable pub mode_name : Mode → Text
mode_name switched = codes "switch"
mode_name standalone = codes "standalone"

unfoldable pub mode_of : Bool → Mode
mode_of switch_enabled = if switch_enabled then switched else standalone

-- A property of both branches.
if_both {ℓ κ} :
    {A : Type ℓ} (P : A → Type κ) (b : Bool) {x y : A} → P x → P y → P (if b then x else y)
if_both P true px py = px
if_both P false px py = py

module _ (w : Networks) where
  unfoldable pub cidr_strings : List (Bytes × ℕ) → List Text
  cidr_strings cidrs = map w.show_network cidrs

  -- The NAT learns the networks of a tunnel that is attached in switch mode.
  unfoldable pub use_tunnel : Mode → Conf → Option Text × Nat × Stack → Option Text × Nat × Stack
  use_tunnel mode conf (none, n, s) = (none, n, s)
  use_tunnel standalone conf (some config, n, s) = (some config, n, s)
  use_tunnel switched conf (some config, n, s) =
      (some config, set_tunnel_subnets (map (λ c. subnet_of w c) conf.allowed_ips) n, s)

  module _ (switch_enabled creates : Bool) (addable : ℕ × Bytes → Bool) (configures : Text → Bool)
      (guest_nic : ℕ) where
    -- A tunnel that does not attach is skipped; `none` is a fatal error.
    unfoldable pub with_conf : Option Conf → Nat → Stack → Option (Option Text × Nat × Stack)
    unfolding mode_of use_tunnel attach
    with_conf none n s = none
    with_conf (some conf) n s = some (
        use_tunnel (mode_of switch_enabled) conf
          (attach w creates addable configures guest_nic conf (mode_of switch_enabled) n s))

    -- `path` is what `ResolvePath` gives, and `load` is `Load`.
    unfoldable pub start_tunnel :
        Option Text → (Text → Option Conf) → Nat → Stack → Option (Option Text × Nat × Stack)
    unfolding with_conf
    start_tunnel none load n s = none
    start_tunnel (some path) load n s = with_conf (load path) n s

  -- The netstack as it was, but for its routes.
  unfoldable pub OnlyRoutes : Nat → Nat → Type 0
  OnlyRoutes n n' = (routes : List ((Bytes × ℕ) × ℕ)) × (n' ≡ record n { routes = routes })

  add_routes-OnlyRoutes :
      (nic : ℕ) (cidrs : List (Bytes × ℕ)) (n : Nat) → OnlyRoutes n (add_routes w nic cidrs n)
  unfolding add_routes add_route OnlyRoutes
  add_routes-OnlyRoutes nic [] n = (n.routes, refl)
  add_routes-OnlyRoutes nic (a ∷ cidrs) n =
      let (routes, e) = add_routes-OnlyRoutes nic cidrs (add_route (subnet_of w a, nic) n) in
      (routes, e)

  OnlyRoutes-trans : (n n1 n2 : Nat) → OnlyRoutes n n1 → OnlyRoutes n1 n2 → OnlyRoutes n n2
  unfolding OnlyRoutes
  OnlyRoutes-trans n n1 n2 (r1, e1) (r2, e2) =
      (r2, e2 ∙ ap {A = Nat} (λ m. record m { routes = r2 }) e1)

  set_mode-OnlyRoutes :
      (addable : ℕ × Bytes → Bool) (nic : ℕ) (conf : Conf) (mode : Mode) (n : Nat) (s : Stack)
      → OnlyRoutes n (set_mode w addable nic conf mode n s).0
  unfolding set_mode
  set_mode-OnlyRoutes addable nic conf switched n s = unfold OnlyRoutes in (n.routes, refl)
  set_mode-OnlyRoutes addable nic conf standalone n s = add_routes-OnlyRoutes nic conf.addresses n

  pub attach-OnlyRoutes :
      (creates : Bool) (addable : ℕ × Bytes → Bool) (configures : Text → Bool) (nic : ℕ)
      (conf : Conf) (mode : Mode) (n : Nat) (s : Stack)
      → OnlyRoutes n (attach w creates addable configures nic conf mode n s).1
  unfolding attach
  attach-OnlyRoutes creates addable configures nic conf mode n s =
      let n1 = (set_mode w addable nic conf mode n s).0 in
      let first = set_mode-OnlyRoutes addable nic conf mode n s in
      let both = OnlyRoutes-trans n n1 _ first (add_routes-OnlyRoutes wg_nic conf.allowed_ips n1) in
      let same : OnlyRoutes n n = unfold OnlyRoutes in (n.routes, refl) in
      if_both (λ (r : Option Text × Nat × Stack). OnlyRoutes n r.1) (not creates) same
        (if_both (λ (r : Option Text × Nat × Stack). OnlyRoutes n r.1)
          (not (set_mode w addable nic conf mode n s).2) first
          (if_both (λ (r : Option Text × Nat × Stack). OnlyRoutes n r.1) (configures _) both both))

  use_tunnel-skipped :
      (mode : Mode) (conf : Conf) (r : Option Text × Nat × Stack) (n' : Nat) (s' : Stack)
      → use_tunnel mode conf r ≡ (none, n', s')
      → r.1 ≡ n'
  unfolding use_tunnel
  use_tunnel-skipped mode conf (none, n, s) n' s' e = ap (λ x. x.1) e
  use_tunnel-skipped standalone conf (some config, n, s) n' s' e = cc (ap (λ x. x.0) e)
  use_tunnel-skipped switched conf (some config, n, s) n' s' e = cc (ap (λ x. x.0) e)

  OnlyRoutes-dials :
      (a : Addresses) (d : Dials) (n n' : Nat) (dst : Bytes) (ip : Text) (port : ℕ)
      → OnlyRoutes n n'
      → (dial_tcp a d n' dst port ≡ dial_tcp a d n dst port)
        × (dial_udp a d n' ip port ≡ dial_udp a d n ip port)
  unfolding OnlyRoutes dial_tcp dial_udp dials_tunnel
  OnlyRoutes-dials a d n n' dst ip port (routes, e) = rw e (refl, refl)

  module _ (a : Addresses) (d : Dials) (switch_enabled creates : Bool) (addable : ℕ × Bytes → Bool)
      (configures : Text → Bool) (nic : ℕ) where
    -- Every flow of the guest is connected where it was before.
    SameDials : Nat → Nat → Bytes → Text → ℕ → Type 0
    SameDials n n' dst ip port =
        (dial_tcp a d n' dst port ≡ dial_tcp a d n dst port)
        × (dial_udp a d n' ip port ≡ dial_udp a d n ip port)

    with_conf_skipped :
        (conf : Option Conf) (n n' : Nat) (s s' : Stack) (dst : Bytes) (ip : Text) (port : ℕ)
        → with_conf switch_enabled creates addable configures nic conf n s ≡ some (none, n', s')
        → SameDials n n' dst ip port
    unfolding with_conf SameDials
    with_conf_skipped none n n' s s' dst ip port e = cc
    with_conf_skipped (some conf) n n' s s' dst ip port e =
        let mode = mode_of switch_enabled in
        let r = attach w creates addable configures nic conf mode n s in
        let skipped : use_tunnel mode conf r ≡ (none, n', s') = cc in
        let same : r.1 ≡ n' = use_tunnel-skipped mode conf r n' s' skipped in
        let kept : OnlyRoutes n n' =
          rw (← same) (attach-OnlyRoutes creates addable configures nic conf mode n s) in
        OnlyRoutes-dials a d n n' dst ip port kept

    -- An instance whose tunnel does not attach, at whatever step, goes on, and connects every TCP and
    -- UDP flow of the guest where it did before.
    pub start_tunnel_skipped :
        (path : Option Text) (load : Text → Option Conf) (n n' : Nat) (s s' : Stack) (dst : Bytes)
        (ip : Text) (port : ℕ)
        → start_tunnel switch_enabled creates addable configures nic path load n s
          ≡ some (none, n', s')
        → (dial_tcp a d n' dst port ≡ dial_tcp a d n dst port)
          × (dial_udp a d n' ip port ≡ dial_udp a d n ip port)
    unfolding start_tunnel SameDials
    start_tunnel_skipped none load n n' s s' dst ip port e = cc
    start_tunnel_skipped (some path) load n n' s s' dst ip port e =
        with_conf_skipped (load path) n n' s s' dst ip port e
