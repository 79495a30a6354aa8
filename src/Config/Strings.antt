-- ===== src/Config/Strings.antt =====
-- The functions of Go's packages strings and strconv that the configuration uses, on strings as lists
-- of byte codes.
use uml_kernel_build.Common.{
  ◌||◌, ℤ, pos, negsuc, zero, suc, ℕ, ◌+◌, ◌-◌, ◌*◌, ◌^◌, Bool, ◌&&◌, Option, none, some, List, [],
  ◌∷◌, ltb, leb, ◌==◌, if◌then◌else◌, nat_eq, bytes_eq, length, get_or, drop,
}

abbrev pub Text : Type 0
Text = List ℕ

unfoldable pub is_space : ℕ → Bool
is_space c = (c == 32) || (leb 9 c && leb c 13)

unfoldable pub trim_left : Text → Text
unfolding is_space
trim_left [] = []
trim_left (c ∷ s) = let rest = trim_left s in if is_space c then rest else c ∷ s

unfoldable pub trim_right : Text → Text
unfolding is_space
trim_right [] = []
trim_right (c ∷ s) =
    let rest = trim_right s in
    elim rest [ [] ↦ if is_space c then [] else c ∷ [] | d ∷ t ↦ c ∷ (d ∷ t) ]

-- `strings.TrimSpace`, for the spaces of ASCII.
unfoldable pub trim_space : Text → Text
unfolding trim_left trim_right
trim_space s = trim_right (trim_left s)

-- `strings.CutPrefix`
unfoldable pub cut_prefix : Text → Text → Option Text
cut_prefix [] s = some s
cut_prefix (c ∷ p) [] = none
cut_prefix (c ∷ p) (d ∷ s) = let rest = cut_prefix p s in if c == d then rest else none

-- `strings.Split` at one character: never empty.
unfoldable pub split : ℕ → Text → List Text
split sep [] = [] ∷ []
split sep (c ∷ s) =
    let rest = split sep s in
    if c == sep
    then [] ∷ rest
    else elim rest [ [] ↦ (c ∷ []) ∷ [] | part ∷ parts ↦ (c ∷ part) ∷ parts ]

-- The text up to a character and the text behind it.
unfoldable pub split_at : ℕ → Text → Option (Text × Text)
split_at sep [] = none
split_at sep (c ∷ s) =
    let rest = split_at sep s in
    if c == sep then some ([], s) else elim rest [ none ↦ none | some (k, v) ↦ some (c ∷ k, v) ]

unfoldable pub digits : ℕ → Text → Option ℕ
digits acc [] = some acc
digits acc (c ∷ s) =
    let rest = digits (acc * 10 + (c - 48)) s in if leb 48 c && leb c 57 then rest else none

-- `strconv.ParseUint(s, 10, 16)`
unfoldable pub parse_uint16 : Text → Option ℕ
unfolding digits
parse_uint16 s =
    if length s == 0
    then none
    else elim (digits 0 s) [ none ↦ none | some n ↦ if ltb n 65536 then some n else none ]

unfoldable pub atoi_digits : Text → Option ℕ
unfolding digits
atoi_digits s = if length s == 0 then none else digits 0 s

-- A number with a minus in front.
unfoldable pub negate : ℕ → ℤ
negate zero = pos 0
negate (suc n) = negsuc n

-- `strconv.Atoi` on 64 bits.
unfoldable pub atoi : Text → Option ℤ
unfolding atoi_digits negate
atoi s =
    let rest = drop 1 s in
    if get_or s 0 0 == 45
    then elim (atoi_digits rest) [
      | none ↦ none
      | some n ↦ if leb n (2 ^ 63) then some (negate n) else none
    ]
    else elim (atoi_digits (if get_or s 0 0 == 43 then rest else s)) [
      | none ↦ none
      | some n ↦ if ltb n (2 ^ 63) then some (pos n) else none
    ]
