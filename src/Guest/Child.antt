-- ===== src/Guest/Child.antt =====
-- The helper that the stand-in guest of vdeplug-go/helpers/fakeguest/main.go starts, through the command
-- line of vdeplug-go/main.go to the settings of internal/config/config.go.
use uml_kernel_build.Common.{
  ℕ, ◌≡◌, refl, ap, ◌∙◌, true, Option, none, some, List, [], ◌∷◌, ◌++◌, arith, ◌==◌, if◌then◌else◌,
  nat_eq, bytes_eq, length, All, Bytes, codes, copy_n,
}
use uml_kernel_build.Config.Strings.{Text, cut_prefix, split, split_at, atoi, atoi_digits, digits}
use uml_kernel_build.Config.{
  load, switch_enabled, Config, key_of, set_key, apply_key, apply_token, apply_tokens, apply_vnl,
}
use uml_kernel_build.Config.Overrides.{Without, split_one, split_other, split_at-none}
use uml_kernel_build.Common.{pos}
use uml_kernel_build.Startup.Boot.{contend, params_of, Process, launch, boot_with, boot}
use uml_kernel_build.Startup.{resolve_switch_socket, link_mtu, parse_args_from, parse_args}

-- `main` of the stand-in guest, up to the arguments of the command.
unfoldable pub child_vnl : Text → Text
child_vnl sock = codes "slirp://" ++ (if length sock == 0 then [] else codes "socket=" ++ sock)

unfoldable pub child_args : Text → List Text
unfolding child_vnl
child_args sock = codes "--descr" ∷ codes "fakeguest" ∷ codes "seqpacket://3" ∷ child_vnl sock ∷ []

-- `mustMAC` on what `net.ParseMAC` gives, and `mustIP` on what `net.ParseIP` and `To4` give; `none` is
-- the fatal error.
unfoldable pub must_mac : Option Bytes → Option Bytes
must_mac parsed = elim parsed [
  | none ↦ none
  | some hw ↦ if length hw == 6 then some (copy_n 6 hw) else none
]

unfoldable pub must_ip : Option Bytes → Option Bytes
must_ip parsed = elim parsed [ none ↦ none | some ip4 ↦ some (copy_n 4 ip4) ]

-- A parameter without "=" does not set the socket.
apply_token-socket :
    (tok : Text) (c : Config) → Without 61 tok → (apply_token tok c).socket ≡ c.socket
unfolding apply_token
apply_token-socket tok c h = rw (split_at-none 61 tok h, apply_token) (ground arith)

apply_tokens-socket :
    (toks : List Text) (c : Config)
    → All (Without 61) toks
    → (apply_tokens toks c).socket ≡ c.socket
unfolding apply_tokens
apply_tokens-socket [] c h = refl
apply_tokens-socket (tok ∷ toks) c h =
    apply_tokens-socket toks (apply_token tok c) h.1 ∙ apply_token-socket tok c h.0

child_parsed :
    (sock : Text)
    → parse_args (child_args sock)
      ≡ record { descr = codes "fakeguest"; fd = pos 3; vnl = child_vnl sock }
unfolding parse_args parse_args_from child_args child_vnl cut_prefix atoi atoi_digits digits
child_parsed sock = refl

child_params :
    (c : ℕ) (sock : Text) → params_of (child_vnl (c ∷ sock)) ≡ codes "socket=" ++ (c ∷ sock)
unfolding params_of child_vnl cut_prefix
child_params c sock = ground arith

child_boots :
    (p : Process) (dir : Text) (cfg : Config) (c : ℕ) (sock : Text)
    → p.self_dir ≡ some dir
    → load p.file ≡ some cfg
    → boot p (child_args (c ∷ sock)) ≡ launch p dir (apply_vnl (codes "socket=" ++ (c ∷ sock)) cfg)
unfolding boot boot_with
child_boots p dir cfg c sock self found =
    ap (boot_with p) (child_parsed (c ∷ sock))
    ∙ rw (self, found, boot_with)
        (ap (λ params. launch p dir (apply_vnl params cfg)) (child_params c sock))

socket_name :
    (cfg : Config) (name : Text)
    → Without 47 name
    → apply_vnl (codes "socket=" ++ name) cfg ≡ record cfg { socket = name }
unfolding apply_vnl apply_tokens apply_token apply_key key_of set_key split_at Without
socket_name cfg name h =
    let whole : Without 47 (codes "socket=" ++ name) = ground (arith, h) in
    rw (split_one 47 (codes "socket=" ++ name) whole, apply_tokens) refl

socket_path :
    (cfg : Config) (path : Text)
    → Without 61 path
    → (apply_vnl (codes "socket=" ++ (47 ∷ path)) cfg).socket ≡ []
unfolding apply_vnl apply_tokens apply_token apply_key key_of set_key split_at split
socket_path cfg path h =
    apply_tokens-socket (split 47 path) (record cfg { socket = [] }) (split_other 47 61 path h)

-- The stand-in guest starts the helper with its `-socket` as a parameter of the vnl, beside a
-- configuration that has the switch. A name without a slash becomes the socket of the helper, which
-- contends there with its other settings unchanged. An absolute path without "=" in it is lost: the
-- helper starts with its socket set to the empty text, which means the default one.
pub boot-child_args :
    (p : Process) (dir : Text) (cfg : Config) (c : ℕ) (name path : Text)
    → p.self_dir ≡ some dir
    → load p.file ≡ some cfg
    → switch_enabled cfg ≡ true
    → Without 47 (c ∷ name)
    → Without 61 path
    → (boot p (child_args (c ∷ name))
        ≡ contend (record cfg { socket = c ∷ name }) (link_mtu cfg.mtu) (c ∷ name))
      × (boot p (child_args (47 ∷ path))
          ≡ launch p dir (apply_vnl (codes "socket=" ++ (47 ∷ path)) cfg))
      × ((apply_vnl (codes "socket=" ++ (47 ∷ path)) cfg).socket ≡ [])
unfolding launch resolve_switch_socket switch_enabled
boot-child_args p dir cfg c name path self found on h h' = (
  child_boots p dir cfg c name self found
      ∙ rw (socket_name cfg (c ∷ name) h, launch, on) (ground arith),
  child_boots p dir cfg 47 path self found,
  socket_path cfg path h',
)
