-- ===== src/Startup/Mac.antt =====
-- The hardware address of the netstack: `mustMACBytes` and `vdeMAC` of vdeplug-go/main.go.
use uml_kernel_build.Common.{
  ℕ, ◌+◌, ◌-◌, ◌*◌, ◌≡◌, refl, ◌&&◌, Option, none, some, List, [], ◌∷◌, ltb, leb, if◌then◌else◌,
  nat_eq, bytes_eq, length, Bytes, codes, copy_n,
}
use uml_kernel_build.Config.Strings.{Text, split}

-- `strconv.ParseUint(s, 16, 8)` with its error ignored: 0 for what is not a number, 255 for one
-- that is too large.
unfoldable pub hex_value : ℕ → Option ℕ
hex_value c =
    if leb 48 c && leb c 57
    then some (c - 48)
    else if leb 97 c && leb c 102
    then some (c - 87)
    else if leb 65 c && leb c 70
    then some (c - 55)
    else none

unfoldable pub parse_hex : ℕ → Text → ℕ
unfolding hex_value
parse_hex n [] = n
parse_hex n (c ∷ s) = elim (hex_value c) [
  | none ↦ 0
  | some d ↦ let rest = parse_hex (n * 16 + d) s in if ltb 255 (n * 16 + d) then 255 else rest
]

unfoldable pub hex_bytes : List Text → Bytes
unfolding parse_hex
hex_bytes [] = []
hex_bytes (part ∷ parts) = parse_hex 0 part ∷ hex_bytes parts

-- `none` is the panic on a seventh part; missing parts stay 0.
unfoldable pub mac_of_parts : List Text → Option Bytes
unfolding hex_bytes
mac_of_parts parts = if ltb 6 (length parts) then none else some (copy_n 6 (hex_bytes parts))

unfoldable pub must_mac_bytes : Text → Option Bytes
unfolding mac_of_parts
must_mac_bytes s = mac_of_parts (split 58 s)

abbrev pub vde_mac : Bytes
vde_mac = 0x7a ∷ 0x72 ∷ 0x6d ∷ 0x3c ∷ 0xd7 ∷ 0x23 ∷ []

vde_mac_lem : must_mac_bytes (codes "7a:72:6d:3c:d7:23") ≡ some vde_mac
unfolding must_mac_bytes split
vde_mac_lem = refl
