-- ===== src/Tunnel.antt =====
-- vdeplug-go/internal/wgup/tunnel.go: the tunnel's NIC in the netstack and the device's configuration.
pub mod Routes
pub mod Uapi
pub mod Handshake
pub mod Bridge
pub mod Watch
pub mod Start
use uml_kernel_build.Common.{
  ◌||◌, ℕ, zero, suc, ◌+◌, ◌/◌, ◌%◌, Bool, true, false, not, Option, none, some, List, [], ◌∷◌,
  ◌++◌, ltb, ◌==◌, if◌then◌else◌, nat_eq, bytes_eq, length, replicate, Bytes, codes, copy_n,
}
use uml_kernel_build.Common.{ℤ, pos, negsuc}
use uml_kernel_build.Config.Strings.{Text}
use uml_kernel_build.Wireguard.{Conf}
use uml_kernel_build.Nat as Nats
use uml_kernel_build.Nat.{Nat, add_route}

pub data Mode : Type 0 where
  standalone switched : Mode

abbrev pub wg_nic : ℕ
wg_nic = 2

abbrev pub default_mtu : ℕ
default_mtu = 1420

-- The packages net and tcpip: `to4` and `to16` are `IP.To4` and `IP.To16`, `masked` is
-- `AddressWithPrefix.Subnet`, `show_network` is `IPNet.String`, `resolve` is `net.ResolveUDPAddr`.
pub record Networks : Type 0 where
  pub to4 : Bytes → Option Bytes
  pub to16 : Bytes → Option Bytes
  pub masked : Bytes → ℕ → Bytes × ℕ
  pub show_network : Bytes × ℕ → Text
  pub resolve : Text → Option Text

-- What the stack holds besides its routes: the addresses of the tunnel's NIC, and whether the guest's NIC
-- is promiscuous and each family is forwarded.
pub record Stack : Type 0 where
  pub own : List (ℕ × Bytes)
  pub promiscuous : Bool
  pub forwarding4 : Bool
  pub forwarding6 : Bool

unfoldable pub mtu_of : ℤ → ℕ
mtu_of (pos zero) = default_mtu
mtu_of (pos (suc n)) = suc n
mtu_of (negsuc n) = default_mtu

abbrev pub hex_digit : ℕ → ℕ
hex_digit d = if ltb d 10 then 48 + d else 87 + d

-- `%x`
unfoldable pub hex : Bytes → Text
hex [] = []
hex (b ∷ bs) = hex_digit (b / 16) ∷ hex_digit (b % 16) ∷ hex bs

-- `%d` of a number of at most `places` digits.
unfoldable pub decimal : ℕ → ℕ → Text
decimal zero n = []
decimal (suc places) n =
    let high = decimal places (n / 10) in
    if ltb n 10 then (48 + n) ∷ [] else high ++ ((48 + n % 10) ∷ [])

-- A line of the device's configuration.
unfoldable pub uapi_line : Text → Text → Text
uapi_line key value = key ++ (61 ∷ (value ++ (10 ∷ [])))

unfoldable pub allowed_lines : (Bytes × ℕ → Text) → List (Bytes × ℕ) → Text
unfolding uapi_line
allowed_lines show [] = []
allowed_lines show (a ∷ cidrs) = uapi_line (codes "allowed_ip") (show a) ++ allowed_lines show cidrs

-- The preshared key is nil where it is empty.
unfoldable pub device_config : (Bytes × ℕ → Text) → Conf → Text → Text
unfolding uapi_line allowed_lines hex decimal
device_config show conf endpoint =
    uapi_line (codes "private_key") (hex conf.private_key)
    ++ (uapi_line (codes "public_key") (hex conf.peer_key)
        ++ ((if length conf.preshared_key == 0
              then []
              else uapi_line (codes "preshared_key") (hex conf.preshared_key))
            ++ (uapi_line (codes "endpoint") endpoint
                ++ (allowed_lines show conf.allowed_ips
                    ++ (if conf.keepalive == 0
                        then []
                        else uapi_line (codes "persistent_keepalive_interval")
                            (decimal 5 conf.keepalive))))))

module _ (w : Networks) where
  abbrev pub as16 : Bytes → Bytes
  as16 ip = elim (w.to16 ip) [ none ↦ replicate 16 0 | some out ↦ copy_n 16 out ]

  unfoldable pub subnet_of : Bytes × ℕ → Bytes × ℕ
  subnet_of (ip, bits) = elim (w.to4 ip) [
    | some ip4 ↦ w.masked (copy_n 4 ip4) bits
    | none ↦ w.masked (as16 ip) bits
  ]

  unfoldable pub proto_addr : Bytes → Option (ℕ × Bytes)
  proto_addr ip = elim (w.to4 ip) [
    | some ip4 ↦ some (0x0800, copy_n 4 ip4)
    | none ↦ elim (w.to16 ip) [ none ↦ none | some _ ↦ some (0x86DD, as16 ip) ]
  ]

  unfoldable pub is_ip4 : Bytes → Bool
  is_ip4 ip = elim (w.to4 ip) [ none ↦ false | some _ ↦ true ]

  -- `hasFamily` for family 4 (true) or 6.
  unfoldable pub has_family : List (Bytes × ℕ) → Bool → Bool
  unfolding is_ip4
  has_family [] family = false
  has_family ((ip, bits) ∷ cidrs) family =
      let more = has_family cidrs family in if is_ip4 ip then family || more else not family || more

  -- `addAddress` for each of the tunnel's addresses; `addable` is the stack's answer. The second result
  -- is false at an error.
  unfoldable pub add_addresses : (ℕ × Bytes → Bool) → List (Bytes × ℕ) → Stack → Stack × Bool
  unfolding proto_addr
  add_addresses addable [] s = (s, true)
  add_addresses addable ((ip, bits) ∷ cidrs) s = elim (proto_addr ip) [
    | none ↦ (s, false)
    | some a ↦
        let more = add_addresses addable cidrs (record s { own = s.own ++ (a ∷ []) }) in
        if addable a then more else (s, false)
  ]

  unfoldable pub add_routes : ℕ → List (Bytes × ℕ) → Nat → Nat
  unfolding subnet_of add_route
  add_routes nic [] n = n
  add_routes nic (a ∷ cidrs) n = add_routes nic cidrs (add_route (subnet_of a, nic) n)

  -- The part of `Attach` that the mode decides; the third result is false at an error.
  unfoldable pub set_mode : (ℕ × Bytes → Bool) → ℕ → Conf → Mode → Nat → Stack → Nat × Stack × Bool
  unfolding add_addresses add_routes has_family
  set_mode addable guest_nic conf switched n s =
      let (s', ok) = add_addresses addable conf.addresses s in (n, s', ok)
  set_mode addable guest_nic conf standalone n s = (
    add_routes guest_nic conf.addresses n,
    record s {
      promiscuous = false;
      forwarding4 = s.forwarding4 || has_family conf.allowed_ips true;
      forwarding6 = s.forwarding6 || has_family conf.allowed_ips false;
    },
    true,
  )

  -- `Attach`: the configuration that the device got, with the state after it; `none` is an error.
  -- `creates` says whether the NIC can be created, `configures` is the device's `IpcSet`.
  unfoldable pub attach :
      Bool
      → (ℕ × Bytes → Bool)
      → (Text → Bool)
      → ℕ
      → Conf
      → Mode
      → Nat
      → Stack
      → Option Text × Nat × Stack
  unfolding set_mode add_routes device_config
  attach creates addable configures guest_nic conf mode n s =
      let (n1, s1, ok) = set_mode addable guest_nic conf mode n s in
      let n2 = add_routes wg_nic conf.allowed_ips n1 in
      let resolved : Text = elim (w.resolve conf.endpoint) [
        | none ↦ conf.endpoint
        | some addr ↦ addr
      ] in
      let config = device_config w.show_network conf resolved in
      if not creates
      then (none, n, s)
      else if not ok
      then (none, n1, s1)
      else if configures config
      then (some config, n2, s1)
      else (none, n2, s1)
