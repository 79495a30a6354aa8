-- ===== src/Link/Names.antt =====
-- The text form of hardware addresses, `netAddr` of vdeplug-go/internal/link/link.go, read back by
-- `mustMACBytes` of vdeplug-go/main.go; and `GuestMAC`.
use uml_kernel_build.Common.{
  ℕ, suc, ◌/◌, ◌%◌, ◌<◌, ◌≡◌, refl, ap, ◌∙◌, Bool, true, false, none, some, List, [], ◌∷◌, ◌++◌,
  arith, ltb, nat_eq, bytes_eq, length, All, Bytes, IsByte, copy_n, copy_n_lem,
}
use uml_kernel_build.Config.Strings.{Text, split}
use uml_kernel_build.Config.Overrides.{Without, split_one}
use uml_kernel_build.Link.{Endpoint}
use uml_kernel_build.Startup.Mac.{hex_value, parse_hex, hex_bytes, mac_of_parts, must_mac_bytes}
use uml_kernel_build.Tunnel.{hex_digit, hex}

-- `GuestMAC`: the empty address and false where there is none.
unfoldable pub guest_mac : Endpoint → Bytes × Bool
guest_mac e = elim e.guest_mac [ none ↦ ([], false) | some mac ↦ (mac, true) ]

-- `strings.Join`
unfoldable pub join : ℕ → List Text → Text
join sep [] = []
join sep (p ∷ []) = p
join sep (p ∷ (q ∷ ps)) = p ++ (sep ∷ join sep (q ∷ ps))

unfoldable pub hex_parts : Bytes → List Text
unfolding hex
hex_parts [] = []
hex_parts (c ∷ b) = hex (c ∷ []) ∷ hex_parts b

unfoldable pub net_addr : Bytes → Text
unfolding join hex_parts
net_addr b = join 58 (hex_parts b)

split-prefix : (p s : Text) → Without 58 p → split 58 (p ++ (58 ∷ s)) ≡ p ∷ split 58 s
unfolding split Without
split-prefix [] s h = refl
split-prefix (c ∷ p) s h = rw (split-prefix p s h.1, split) (ground (arith, h))

split-join :
    (p : Text) (ps : List Text) → All (Without 58) (p ∷ ps) → split 58 (join 58 (p ∷ ps)) ≡ p ∷ ps
unfolding join
split-join p [] h = split_one 58 p h.0
split-join p (q ∷ ps) h =
    rw (split-prefix p (join 58 (q ∷ ps)) h.0) (ap (◌∷◌ p) (split-join q ps h.1))

hex_value-hex_digit : (d : ℕ) → d < 16 → hex_value (hex_digit d) ≡ some d
unfolding hex_value
hex_value-hex_digit d h = ground arith

parse_hex-hex : (b : ℕ) → IsByte b → parse_hex 0 (hex (b ∷ [])) ≡ b
unfolding parse_hex hex
parse_hex-hex b h =
    rw (hex_value-hex_digit (b / 16) (omega arith), parse_hex)
      (rw (hex_value-hex_digit (b % 16) (omega arith)) (ground arith))

hex_bytes-hex_parts : (b : Bytes) → All IsByte b → hex_bytes (hex_parts b) ≡ b
unfolding hex_bytes hex_parts
hex_bytes-hex_parts [] h = refl
hex_bytes-hex_parts (c ∷ b) h = rw (parse_hex-hex c h.0, hex_bytes-hex_parts b h.1) refl

hex_parts-Without : (b : Bytes) → All IsByte b → All (Without 58) (hex_parts b)
unfolding hex_parts hex Without
hex_parts-Without [] h = tt
hex_parts-Without (c ∷ b) h = ((ground arith, (ground arith, tt)), hex_parts-Without b h.1)

length-hex_parts : (b : Bytes) → length (hex_parts b) ≡ length b
unfolding hex_parts
length-hex_parts [] = refl
length-hex_parts (c ∷ b) = ap suc (length-hex_parts b)

-- The text that the log gives a hardware address is one that the program reads as that address.
pub must_mac_bytes-net_addr :
    (mac : Bytes) → length mac ≡ 6 → All IsByte mac → must_mac_bytes (net_addr mac) ≡ some mac
unfolding must_mac_bytes net_addr
must_mac_bytes-net_addr [] six h = absurd (omega arith)
must_mac_bytes-net_addr (c ∷ b) six h =
    let mac = c ∷ b in
    let parts : split 58 (join 58 (hex_parts mac)) ≡ hex_parts mac =
      unfold hex_parts in split-join (hex (c ∷ [])) (hex_parts b) (hex_parts-Without mac h) in
    let few : ltb 6 (length (hex_parts mac)) ≡ false =
      rw (length-hex_parts mac) (ground (arith, six)) in
    ap mac_of_parts parts
    ∙ rw (few, mac_of_parts)
        (ap some (ap (copy_n 6) (hex_bytes-hex_parts mac h) ∙ copy_n_lem 6 mac six))
