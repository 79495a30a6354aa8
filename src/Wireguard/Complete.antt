-- ===== src/Wireguard/Complete.antt =====
-- What a tunnel's configuration that is accepted has.
use uml_kernel_build.Common.{
  ℕ, ◌^◌, ◌<◌, ◌≡◌, ◌≢◌, ◌⊎◌, inl, inr, refl, true, some, List, [], ◌∷◌, arith, Option-cases,
  nat_eq, bytes_eq, length, Bytes, IsU16,
}
use uml_kernel_build.Common.{ℤ, pos, negsuc}
use uml_kernel_build.Config.Strings.{Text, trim_space, split_at, atoi}
use uml_kernel_build.Wireguard.{
  Conf, Section, other_section, Key, private_key_key, address_key, dns_key, mtu_key, public_key_key,
  preshared_key_key, allowed_ips_key, endpoint_key, keepalive_key, other_key, Decoders, key_of,
  lower, keepalive_of, empty_conf, decode_key, parse_cidrs, set_key, parse_line, parse_lines, parse,
}

-- A key is missing or has 32 bytes.
IsKey : Bytes → Type 0
IsKey k = (length k ≡ 0) ⊎ (length k ≡ 32)

module _ (d : Decoders) where
  Sound : Conf → Type 0
  Sound c =
      IsKey c.private_key
      × IsKey c.peer_key
      × IsKey c.preshared_key
      × IsU16 c.keepalive
      × ((c.endpoint ≡ []) ⊎ (d.split_host_port c.endpoint ≡ true))

  decode_key-size : (v : Text) (k : Bytes) → decode_key d v ≡ some k → length k ≡ 32
  unfolding decode_key
  decode_key-size v k h = ground arith

  keepalive_of-IsU16 : (n : ℤ) (k : ℕ) → keepalive_of n ≡ some k → IsU16 k
  unfolding keepalive_of
  keepalive_of-IsU16 (pos n) k h = ground arith
  keepalive_of-IsU16 (negsuc n) k h = ground arith

  set_key-Sound :
      (k : Key) (v : Text) (c c' : Conf) → Sound c → set_key d k v c ≡ some c' → Sound c'
  unfolding set_key Sound IsKey
  set_key-Sound private_key_key v c c' s h = elim (Option-cases (decode_key d v)) [
    | inl e ↦ absurd (ground arith)
    | inr (k, e) ↦ let size = decode_key-size v k e in ground arith
  ]
  set_key-Sound address_key v c c' s h = elim (Option-cases (parse_cidrs d v)) [
    | inl e ↦ absurd (ground arith)
    | inr (nets, e) ↦ ground arith
  ]
  set_key-Sound dns_key v c c' s h = ground arith
  set_key-Sound mtu_key v c c' s h = elim (Option-cases (atoi v)) [
    | inl e ↦ absurd (ground arith)
    | inr (n, e) ↦ ground arith
  ]
  set_key-Sound public_key_key v c c' s h = elim (Option-cases (decode_key d v)) [
    | inl e ↦ absurd (ground arith)
    | inr (k, e) ↦ let size = decode_key-size v k e in ground arith
  ]
  set_key-Sound preshared_key_key v c c' s h = elim (Option-cases (decode_key d v)) [
    | inl e ↦ absurd (ground arith)
    | inr (k, e) ↦ let size = decode_key-size v k e in ground arith
  ]
  set_key-Sound allowed_ips_key v c c' s h = elim (Option-cases (parse_cidrs d v)) [
    | inl e ↦ absurd (ground arith)
    | inr (nets, e) ↦ ground arith
  ]
  set_key-Sound endpoint_key v c c' s h = ground arith
  set_key-Sound keepalive_key v c c' s h = elim (Option-cases (atoi v)) [
    | inl e ↦ absurd (ground arith)
    | inr (n, e) ↦ elim (Option-cases (keepalive_of n)) [
      | inl e' ↦ absurd (ground arith)
      | inr (k, e') ↦ let small = keepalive_of-IsU16 n k e' in ground arith
    ]
  ]
  set_key-Sound other_key v c c' s h = ground arith

  parse_line-Sound :
      (line : Text) (section section' : Section) (c c' : Conf)
      → Sound c
      → parse_line d line section c ≡ some (section', c')
      → Sound c'
  unfolding parse_line
  parse_line-Sound line section section' c c' s h = elim (Option-cases (split_at 61 line)) [
    | inl e ↦ let same : c ≡ c' = ground arith in rw (← same) s
    | inr ((k, v), e) ↦
        elim (Option-cases (set_key d (key_of section (lower (trim_space k))) (trim_space v) c)) [
          | inl e' ↦ let same : c ≡ c' = ground arith in rw (← same) s
          | inr (c1, e') ↦
              let s1 =
                set_key-Sound (key_of section (lower (trim_space k))) (trim_space v) c c1 s e' in
              let either : (c ≡ c') ⊎ (c1 ≡ c') = ground arith in
              elim either [ inl same ↦ rw (← same) s | inr same ↦ rw (← same) s1 ]
        ]
  ]

  parse_lines-Sound :
      (raws : List Text) (section : Section) (c c' : Conf)
      → Sound c
      → parse_lines d raws section c ≡ some c'
      → Sound c'
  unfolding parse_lines
  parse_lines-Sound [] section c c' s h = let same : c ≡ c' = ground arith in rw (← same) s
  parse_lines-Sound (raw ∷ raws) section c c' s h =
      elim (Option-cases (parse_line d (trim_space raw) section c)) [
        | inl e ↦ absurd (ground arith)
        | inr ((section', c1), e) ↦
            parse_lines-Sound raws section' c1 c'
              (parse_line-Sound (trim_space raw) section section' c c1 s e)
              (rw (e, parse_lines) at h)
      ]

  -- A configuration that is accepted has a private and a peer key of 32 bytes, a preshared key of 32
  -- bytes or none, a route at least, an endpoint with host and port, and a keepalive of 16 bits.
  pub parse_complete :
      (raws : List Text) (c : Conf)
      → parse d raws ≡ some c
      → (length c.private_key ≡ 32)
        × (length c.peer_key ≡ 32)
        × ((length c.preshared_key ≡ 0) ⊎ (length c.preshared_key ≡ 32))
        × (0 < length c.allowed_ips)
        × (d.split_host_port c.endpoint ≡ true)
        × (c.keepalive < 2 ^ 16)
  unfolding parse
  parse_complete raws c h = elim (Option-cases (parse_lines d raws other_section empty_conf)) [
    | inl e ↦ absurd (ground arith)
    | inr (c1, e) ↦
        let fresh : Sound empty_conf =
          unfold Sound IsKey empty_conf in (inl refl, inl refl, inl refl, omega arith, inl refl) in
        let s = parse_lines-Sound raws other_section empty_conf c1 fresh e in
        let same : c1 ≡ c = ground arith in
        let found : (length c1.private_key ≢ 0)
            × (length c1.peer_key ≢ 0)
            × (length c1.allowed_ips ≢ 0)
            × (length c1.endpoint ≢ 0) =
          ground arith in
        let told : Sound c = rw (← same) s in unfold Sound IsKey in ground arith
  ]
