-- ===== src/Hub/Forwards.antt =====
-- The port rules of an instance, the part of `runInstance` of vdeplug-go/main.go that calls `Start` of
-- internal/portfwd/portfwd.go.
use uml_kernel_build.Common.{
  ◌<◌, ◌≡◌, inl, inr, refl, Bool, not, ◌&&◌, Option, List, [], if◌then◌else◌, Bool-cases, nat_eq,
  bytes_eq, All, Bytes,
}
use uml_kernel_build.Config.{Config}
use uml_kernel_build.Dhcp.Pool.{Pool}
use uml_kernel_build.Hub.{fallback_of}
use uml_kernel_build.Portfwd.{Host, Sockets, Service, Started, serving, refused, start}
use uml_kernel_build.Portfwd.Cleanup.{start_refused}

-- What the goroutines serve; a refused start is logged, and the instance goes on without.
unfoldable pub services_of : Started → List Service
services_of (serving services) = services
services_of refused = []

-- `has_nat` is whether the uplink has a netstack, and `start_ip` is the configured start of the addresses.
unfoldable pub start_forwards :
    Host → Bool → Config → Option Bytes → Option Pool → Sockets → List Service × Sockets
unfolding services_of start fallback_of
start_forwards h has_nat cfg start_ip pool w =
    if not (has_nat && cfg.port_fwd)
    then ([], w)
    else let (started, w') = start h (fallback_of start_ip pool) cfg w in (services_of started, w')

-- An instance whose port rules are refused goes on with the sockets that it had, and serves none of the
-- rules.
pub start_forwards_refused :
    (h : Host) (has_nat : Bool) (cfg : Config) (start_ip : Option Bytes) (pool : Option Pool)
    (w w' : Sockets)
    → All (λ k. k < w.next) w.held
    → start h (fallback_of start_ip pool) cfg w ≡ (refused, w')
    → ((start_forwards h has_nat cfg start_ip pool w).0 ≡ [])
      × ((start_forwards h has_nat cfg start_ip pool w).1.held ≡ w.held)
unfolding start_forwards services_of
start_forwards_refused h has_nat cfg start_ip pool w w' below e =
    let same = start_refused h (fallback_of start_ip pool) cfg w w' below e in
    elim (Bool-cases (has_nat && cfg.port_fwd)) [
      | inl on ↦ rw (on, e) (refl, same)
      | inr off ↦ rw off (refl, refl)
    ]
