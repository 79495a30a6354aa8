-- ===== src/Config/Overrides.antt =====
-- What the command line's parameters can set.
use uml_kernel_build.Common.{
  ℕ, ◌≡◌, ◌≢◌, ◌⊎◌, inl, inr, refl, none, some, List, [], ◌∷◌, arith, ◌==◌, Bool-cases,
  Option-cases, List-cases, nat_eq, bytes_eq, All, bytes_beq,
}
use uml_kernel_build.Config.Strings.{Text, split, split_at, atoi}
use uml_kernel_build.Config.{
  Config, Key, v6, mtu_key, switch_key, socket_key, uplink_key, dhcp_start_key, network_key,
  gateway_key, batch_key, other, key_of, set_key, apply_key, apply_token, apply_tokens, apply_vnl,
}

-- A text without the character.
unfoldable pub Without : ℕ → Text → Type 0
Without c s = All (λ d. d ≢ c) s

split-Without : (c : ℕ) (s : Text) → All (Without c) (split c s)
unfolding split Without
split-Without c [] = (tt, tt)
split-Without c (d ∷ s) =
    let rest = split-Without c s in
    elim (Bool-cases (d == c)) [
      | inl same ↦ rw (same, split) (tt, rest)
      | inr ne ↦ elim (List-cases (split c s)) [
        | inl e ↦ rw (ne, split) (rw e ((ground arith, tt), tt))
        | inr (part, parts, e) ↦
            let old : All (Without c) (part ∷ parts) = rw e at rest in
            rw (ne, split) (rw e ((ground arith, old.0), old.1))
      ]
    ]

split_at-Without :
    (c sep : ℕ) (s k v : Text) → split_at sep s ≡ some (k, v) → Without c s → Without c v
unfolding split_at Without
split_at-Without c sep [] k v h w = absurd (ground arith)
split_at-Without c sep (d ∷ s) k v h w = elim (Bool-cases (d == sep)) [
  | inl same ↦ let e : s ≡ v = ground arith in rw (← e) w.1
  | inr ne ↦ elim (Option-cases (split_at sep s)) [
    | inl bad ↦ absurd (ground arith)
    | inr ((k', v'), e) ↦
        let same : v' ≡ v = ground arith in rw (← same) (split_at-Without c sep s k' v' e w.1)
  ]
]

-- A text without the separator is one part.
pub split_one : (c : ℕ) (s : Text) → Without c s → split c s ≡ s ∷ []
unfolding split Without
split_one c [] h = refl
split_one c (d ∷ s) h = let rest = split_one c s h.1 in rw rest (ground (arith, h))

-- The parts have no character that the text has not.
pub split_other : (c d : ℕ) (s : Text) → Without d s → All (Without d) (split c s)
unfolding split Without
split_other c d [] h = (tt, tt)
split_other c d (e ∷ s) h =
    let rest = split_other c d s h.1 in
    elim (Bool-cases (e == c)) [
      | inl same ↦ rw (same, split) (tt, rest)
      | inr ne ↦ elim (List-cases (split c s)) [
        | inl none_left ↦ rw (ne, split) (rw none_left ((h.0, tt), tt))
        | inr (part, parts, at) ↦
            let old : All (Without d) (part ∷ parts) = rw at at rest in
            rw (ne, split) (rw at ((h.0, old.0), old.1))
      ]
    ]

pub split_at-none : (d : ℕ) (s : Text) → Without d s → split_at d s ≡ none
unfolding split_at Without
split_at-none d [] h = refl
split_at-none d (e ∷ s) h = let rest = split_at-none d s h.1 in rw rest (ground (arith, h))

-- Each of these settings is as it was or has no slash in it.
Kept : Config → Config → Type 0
Kept c0 c =
    ((c.network ≡ c0.network) ⊎ Without 47 c.network)
    × ((c.socket ≡ c0.socket) ⊎ Without 47 c.socket)

set_key-Kept :
    (k : Key) (v : Text) (c0 c : Config) → Without 47 v → Kept c0 c → Kept c0 (set_key k v c)
unfolding set_key Kept
set_key-Kept v6 v c0 c w h = h
set_key-Kept mtu_key v c0 c w h = elim (Option-cases (atoi v)) [
  | inl e ↦ rw (e, set_key) h
  | inr (n, e) ↦ rw (e, set_key) h
]
set_key-Kept switch_key v c0 c w h = h
set_key-Kept socket_key v c0 c w h = (h.0, inr w)
set_key-Kept uplink_key v c0 c w h = h
set_key-Kept dhcp_start_key v c0 c w h = h
set_key-Kept network_key v c0 c w h = (inr w, h.1)
set_key-Kept gateway_key v c0 c w h = h
set_key-Kept batch_key v c0 c w h = elim (Option-cases (atoi v)) [
  | inl e ↦ rw (e, set_key) h
  | inr (n, e) ↦ rw (e, set_key) h
]
set_key-Kept other v c0 c w h = h

apply_token-Kept :
    (tok : Text) (c0 c : Config) → Without 47 tok → Kept c0 c → Kept c0 (apply_token tok c)
unfolding apply_token apply_key Kept
apply_token-Kept tok c0 c w h = elim (Option-cases (split_at 61 tok)) [
  | inr ((k, v), e) ↦
      rw (e, apply_token) (set_key-Kept (key_of k) v c0 c (split_at-Without 47 61 tok k v e w) h)
  | inl e ↦
      rw (e, apply_token)
        (elim (Bool-cases (bytes_beq tok (115 ∷ 119 ∷ 105 ∷ 116 ∷ 99 ∷ 104 ∷ []))) [
          | inl on ↦ rw on h
          | inr differs ↦
              elim (Bool-cases
                (bytes_beq tok (110 ∷ 111 ∷ 115 ∷ 119 ∷ 105 ∷ 116 ∷ 99 ∷ 104 ∷ []))) [
                  | inl off ↦ rw (differs, off) h
                  | inr neither ↦ rw (differs, neither) h
                ]
        ])
]

apply_tokens-Kept :
    (toks : List Text) (c0 c : Config)
    → All (Without 47) toks
    → Kept c0 c
    → Kept c0 (apply_tokens toks c)
unfolding apply_tokens
apply_tokens-Kept [] c0 c w h = h
apply_tokens-Kept (tok ∷ toks) c0 c w h =
    apply_tokens-Kept toks c0 (apply_token tok c) w.1 (apply_token-Kept tok c0 c w.0 h)

-- The parameters are split at slashes before they are read, so the network and the socket that they
-- set have none: the network is never an address with a prefix length, the socket never a path.
pub apply_vnl_no_slash :
    (params : Text) (c : Config)
    → (((apply_vnl params c).network ≡ c.network) ⊎ Without 47 (apply_vnl params c).network)
      × (((apply_vnl params c).socket ≡ c.socket) ⊎ Without 47 (apply_vnl params c).socket)
unfolding apply_vnl Kept
apply_vnl_no_slash params c =
    apply_tokens-Kept (split 47 params) c c (split-Without 47 params) (inl refl, inl refl)
