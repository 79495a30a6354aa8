-- ===== src/Startup/Boot.antt =====
-- `main` of vdeplug-go/main.go, up to the start of the instance or of the failover loop.
use uml_kernel_build.Common.{
  ℕ, Bool, Option, none, some, List, [], if◌then◌else◌, nat_eq, bytes_eq, codes,
}
use uml_kernel_build.Common.{pos, negsuc}
use uml_kernel_build.Config.Strings.{Text, cut_prefix}
use uml_kernel_build.Config.{Config, load, switch_enabled, apply_vnl}
use uml_kernel_build.Startup.{Args, parse_args, resolve_switch_socket, link_mtu}

-- `alone` is an instance without the switch, `contend` the failover loop at the socket's path.
pub data Boot : Type 0 where
  fatal : Boot
  alone : (cfg : Config) (mtu : ℕ) → Boot
  contend : (cfg : Config) (mtu : ℕ) (sock_path : Text) → Boot

-- The parameters of the vnl.
unfoldable pub params_of : Text → Text
unfolding cut_prefix
params_of vnl = elim (cut_prefix (codes "slirp://") vnl) [ none ↦ [] | some rest ↦ rest ]

-- The process: `self_dir` is the directory of the binary, none if it cannot be told, `file` is as in
-- `load`, and the rest as in `resolve_switch_socket`.
pub record Process : Type 0 where
  pub self_dir : Option Text
  pub file : Option (Option (Config → Option Config))
  pub env_socket : Text
  pub tmpdir : Text
  pub writable : Text → Bool
  pub join : Text → Text

module _ (p : Process) where
  unfoldable pub launch : Text → Config → Boot
  unfolding switch_enabled resolve_switch_socket link_mtu
  launch dir cfg =
      if switch_enabled cfg
      then contend cfg (link_mtu cfg.mtu)
          (resolve_switch_socket cfg p.env_socket p.tmpdir dir p.writable p.join)
      else alone cfg (link_mtu cfg.mtu)

  unfoldable pub boot_with : Args → Boot
  unfolding launch params_of apply_vnl load
  boot_with a = elim a.fd [
    | negsuc _ ↦ fatal
    | pos _ ↦ elim p.self_dir [
      | none ↦ fatal
      | some dir ↦ elim (load p.file) [
        | none ↦ fatal
        | some cfg ↦ launch dir (apply_vnl (params_of a.vnl) cfg)
      ]
    ]
  ]

  unfoldable pub boot : List Text → Boot
  unfolding boot_with parse_args
  boot argv = boot_with (parse_args argv)
