-- ===== src/Startup.antt =====
-- The command line and the switch's socket path of vdeplug-go/main.go (`parseArgs`,
-- `resolveSwitchSocket`), and the reader of the guest's frames (`wire`).
pub mod Descriptor
pub mod Boot
pub mod Mac
use uml_kernel_build.Common.{
  ◌%◌, ◌^◌, codes, ℕ, Bool, true, false, not, ◌&&◌, Option, none, some, List, [], ◌∷◌, ltb, leb,
  ◌==◌, if◌then◌else◌, nat_eq, bytes_eq, length, get_or, drop, Bytes,
}
use uml_kernel_build.Common.{ℤ, pos, negsuc}
use uml_kernel_build.Config.Strings.{Text, cut_prefix, atoi}
use uml_kernel_build.Config.{Config}
use uml_kernel_build.Switch.{Switch, Sent, local, forward}

pub record Args : Type 0 where
  pub descr : Text
  pub fd : ℤ
  pub vnl : Text

abbrev pub seqpacket : Text
seqpacket = codes "seqpacket://"

abbrev pub descr_flag : Text
descr_flag = codes "--descr"

-- The loop; `takes_descr` is set where the argument before was a bare "--descr".
unfoldable pub parse_args_from : Bool → List Text → Args → Args
parse_args_from takes_descr [] a = a
parse_args_from true (arg ∷ argv) a = parse_args_from false argv (record a { descr = arg })
parse_args_from false (arg ∷ argv) a = elim (cut_prefix seqpacket arg) [
  | some rest ↦
      parse_args_from false argv (elim (atoi rest) [ none ↦ a | some n ↦ record a { fd = n } ])
  | none ↦ elim (cut_prefix descr_flag arg) [
    | some rest ↦
        if get_or rest 0 0 == 61
        then parse_args_from false argv (record a { descr = drop 1 rest })
        else parse_args_from (length rest == 0) argv a
    | none ↦
        if get_or arg 0 0 == 45
        then parse_args_from false argv a
        else if length a.descr == 0
        then parse_args_from false argv (record a { descr = arg })
        else parse_args_from false argv (record a { vnl = arg })
  ]
]

unfoldable pub parse_args : List Text → Args
unfolding parse_args_from
parse_args argv = parse_args_from false argv (record { descr = []; fd = negsuc 0; vnl = [] })

-- `env_socket` and `tmpdir` are $VDE_SWITCH_SOCKET and $TMPDIR, empty where unset; `writable` is
-- `dirWritable` and `join` is `filepath.Join` with "vde.socket".
unfoldable pub resolve_switch_socket :
    Config → Text → Text → Text → (Text → Bool) → (Text → Text) → Text
resolve_switch_socket cfg env_socket tmpdir self_dir writable join =
    if not (length cfg.socket == 0)
    then cfg.socket
    else if not (length env_socket == 0)
    then env_socket
    else if writable (codes "/tmp")
    then codes "/tmp/vde.socket"
    else if not (length tmpdir == 0) && writable tmpdir
    then join tmpdir
    else if writable self_dir
    then join self_dir
    else codes "vde.socket"

-- The MTU of the link: a configured one that can carry an IP datagram and whose lower 32 bits fit a
-- frame.
unfoldable pub link_mtu : ℤ → ℕ
link_mtu (pos n) = let m = n % 2 ^ 32 in if leb 68 n && leb m 9216 then m else 9216
link_mtu (negsuc n) = 9216

-- Where the reader of the wire hands a frame: to the hub, which takes it, or to the switch, with what
-- that sends inline.
pub data Routed : Type 0 where
  to_hub : (frame : Bytes) → Routed
  to_switch : (now : ℕ) (frame : Bytes) (sent : List Sent) → Routed

-- One frame of the guest. `hub` says whether this instance is a peer, and then whether the hub takes
-- the frame; a frame that the hub does not take is the switch's.
unfoldable pub wire_step : ℕ → Option Bool → Bytes → Switch → List Routed × Switch
wire_step now hub frame s =
    let (sent, s') = forward now local frame s in
    let own_switch : List Routed × Switch = (to_switch now frame sent ∷ [], s') in
    if ltb (length frame) 14 then ([], s) else elim hub [
      | none ↦ own_switch
      | some taken ↦ if taken then (to_hub frame ∷ [], s) else own_switch
    ]
