-- ===== src/Config/Ports.antt =====
-- What the port-forwarding rules and the command line's overrides can be.
use uml_kernel_build.Common.{
  ℕ, suc, ◌^◌, ◌<◌, ◌≡◌, ◌⊎◌, inl, inr, refl, ap, Bool, true, some, List, [], ◌∷◌, arith,
  Option-cases, List-cases, nat_eq, bytes_eq, length, All,
}
use uml_kernel_build.Config.Strings.{Text, cut_prefix, trim_space, parse_uint16, atoi}
use uml_kernel_build.Common.{ℤ, pos, negsuc}
use uml_kernel_build.Config.{
  Forward, two_ports, last_octet_of, parse_address, rule_of, parse_rule, parse_rules,
}

IsPort : ℕ → Type 0
IsPort n = (0 < n) × (n < 2 ^ 16)

parse_uint16-IsU16 : (s : Text) (n : ℕ) → parse_uint16 s ≡ some n → n < 2 ^ 16
unfolding parse_uint16
parse_uint16-IsU16 s n h = ground arith

two_ports-IsPort : (a b : Text) (hp gp : ℕ) → two_ports a b ≡ some (hp, gp) → IsPort hp × IsPort gp
unfolding two_ports IsPort
two_ports-IsPort a b hp gp h = grind (arith, parse_uint16-IsU16)

last_octet_of-lem :
    (n : ℤ) (ip : Text) (octet : ℕ) → last_octet_of n ≡ some (ip, octet) → (octet < 255) × (ip ≡ [])
unfolding last_octet_of
last_octet_of-lem (negsuc n) ip octet h = ground arith
last_octet_of-lem (pos n) ip octet h = ground arith

module _ (valid_ip : Text → Bool) where
  -- What a rule that is accepted looks like.
  pub IsForward : Forward → Type 0
  IsForward f =
      IsPort f.host_port
      × IsPort f.guest_port
      × (f.last_octet < 255)
      × ((f.guest_ip ≡ []) ⊎ ((valid_ip f.guest_ip ≡ true) × (f.last_octet ≡ 0)))

  parse_address-lem :
      (addr ip : Text) (octet : ℕ)
      → parse_address valid_ip addr ≡ some (ip, octet)
      → (octet < 255) × ((ip ≡ []) ⊎ ((valid_ip ip ≡ true) × (octet ≡ 0)))
  unfolding parse_address
  parse_address-lem addr ip octet h = elim (Option-cases (cut_prefix (46 ∷ []) addr)) [
    | inl no_dot ↦ ground arith
    | inr (text, e) ↦ elim (Option-cases (atoi text)) [
      | inl no_number ↦ absurd (ground arith)
      | inr (n, a) ↦ ground (arith, last_octet_of-lem n ip octet)
    ]
  ]

  rule_of-IsForward :
      (udp : Bool) (parts : List Text) (f : Forward)
      → rule_of valid_ip udp parts ≡ some f
      → IsForward f
  unfolding rule_of IsForward
  rule_of-IsForward udp [] f h = absurd (ground arith)
  rule_of-IsForward udp (a ∷ []) f h = absurd (ground arith)
  rule_of-IsForward udp (a ∷ b ∷ []) f h = elim (Option-cases (two_ports a b)) [
    | inl bad ↦ absurd (ground arith)
    | inr ((hp, gp), e) ↦ let ports = two_ports-IsPort a b hp gp e in ground arith
  ]
  rule_of-IsForward udp (a ∷ b ∷ c ∷ []) f h =
      elim (Option-cases (parse_address valid_ip (trim_space a))) [
        | inl bad ↦ absurd (ground arith)
        | inr ((ip, octet), at) ↦ elim (Option-cases (two_ports b c)) [
          | inl bad ↦ absurd (ground arith)
          | inr ((hp, gp), e) ↦
              let ports = two_ports-IsPort b c hp gp e in
              let address = parse_address-lem (trim_space a) ip octet at in ground arith
        ]
      ]
  rule_of-IsForward udp (a ∷ b ∷ c ∷ d ∷ parts) f h = absurd (ground arith)

  -- The rules that are accepted are as many as the entries, and each has ports of 1 to 65535, an octet
  -- below 255, and either no guest address of its own, or a valid one and no octet.
  pub parse_rules_sound :
      (raws : List Text) (fs : List Forward)
      → parse_rules valid_ip raws ≡ some fs
      → (length fs ≡ length raws) × All IsForward fs
  unfolding parse_rules parse_rule
  parse_rules_sound [] fs h = elim (List-cases fs) [
    | inl e ↦ rw e (refl, tt)
    | inr (f, rest, e) ↦ absurd (ground arith)
  ]
  parse_rules_sound (raw ∷ raws) fs h = elim (Option-cases (parse_rule valid_ip raw)) [
    | inl bad ↦ absurd (ground arith)
    | inr (f, e) ↦ elim (Option-cases (parse_rules valid_ip raws)) [
      | inl bad ↦ absurd (ground arith)
      | inr (rest, e') ↦
          let (sizes, all) = parse_rules_sound raws rest e' in
          let out : fs ≡ (f ∷ rest) = ground arith in
          let this : IsForward f = rule_of-IsForward _ _ f e in rw out (ap suc sizes, (this, all))
    ]
  ]
