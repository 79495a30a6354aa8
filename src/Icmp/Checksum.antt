-- ===== src/Icmp/Checksum.antt =====
-- `icmpChecksum` of vdeplug-go/internal/nat/icmp.go.
pub mod Fields
use uml_kernel_build.Common.{
  ℕ, zero, suc, ◌+◌, ◌-◌, ◌*◌, ◌/◌, ◌%◌, ◌^◌, ◌≤◌, ◌<◌, ◌≡◌, ◌≢◌, ◌↔◌, refl, ◌∙◌, false, Option,
  none, some, [], ◌∷◌, ◌++◌, arith, ◌==◌, if◌then◌else◌, nat_eq, bytes_eq, length, All, Bytes,
  IsByte, be16,
}
use native.Mathlib.Decide.{dec_lt}

-- The first loop, over pairs of bytes, and the odd byte behind it; `sum` is a uint32.
unfoldable pub sum_from : ℕ → Bytes → ℕ
sum_from sum [] = sum
sum_from sum (a ∷ []) = (sum + a * 256) % 2 ^ 32
sum_from sum (a ∷ b ∷ rest) = sum_from ((sum + (a * 256 + b)) % 2 ^ 32) rest

-- `for sum>>16 != 0`, with fuel.
unfoldable pub fold_from : ℕ → ℕ → Option ℕ
fold_from zero sum = none
fold_from (suc fuel) sum =
    let rest = fold_from fuel ((sum / 2 ^ 16 + sum % 2 ^ 16) % 2 ^ 32) in
    if sum / 2 ^ 16 == 0 then some sum else rest

-- `^uint16(sum)`; three rounds are enough for any uint32.
unfoldable pub icmp_checksum : Bytes → Option ℕ
icmp_checksum b = elim (fold_from 3 (sum_from 0 b)) [
  | none ↦ none
  | some sum ↦ some (65535 - sum % 2 ^ 16)
]

word_sum : Bytes → ℕ
word_sum [] = 0
word_sum (a ∷ []) = a * 256
word_sum (a ∷ b ∷ rest) = a * 256 + b + word_sum rest

sum_from-word_sum :
    (sum : ℕ) (b : Bytes) → sum < 2 ^ 32 → sum_from sum b ≡ (sum + word_sum b) % 2 ^ 32
unfolding sum_from word_sum
sum_from-word_sum sum [] h = omega arith
sum_from-word_sum sum (a ∷ []) h = refl
sum_from-word_sum sum (a ∷ b ∷ rest) h =
    omega (arith, sum_from-word_sum ((sum + (a * 256 + b)) % 2 ^ 32) rest (omega arith))

word_sum-le : (b : Bytes) → All IsByte b → word_sum b ≤ 65535 * length b
unfolding word_sum
word_sum-le [] h = omega arith
word_sum-le (a ∷ []) h = omega arith
word_sum-le (a ∷ b ∷ rest) h = omega (arith, word_sum-le rest h.1.1)

abbrev folded : ℕ → ℕ
folded sum = (sum / 2 ^ 16 + sum % 2 ^ 16) % 2 ^ 32

fold_from_small : (fuel sum : ℕ) → sum < 2 ^ 16 → fold_from (suc fuel) sum ≡ some sum
unfolding fold_from
fold_from_small fuel sum h = ground arith

fold_from_large :
    (fuel sum : ℕ) → 2 ^ 16 ≤ sum → fold_from (suc fuel) sum ≡ fold_from fuel (folded sum)
unfolding fold_from
fold_from_large fuel sum h = let more : (sum / 2 ^ 16 == 0) ≡ false = ground arith in rw more refl

-- What one round keeps.
folded_keeps :
    (sum : ℕ)
    → sum < 2 ^ 32
    → 2 ^ 16 ≤ sum
    → (folded sum % 65535 ≡ sum % 65535) × (0 < folded sum) × (folded sum ≤ sum / 2 ^ 16 + 65535)
folded_keeps sum h large = (omega arith, omega arith, omega arith)

-- The folding loop ends within three rounds. Its result fits 16 bits, is the sum modulo 65535, and
-- is 0 only for the sum 0.
pub fold_from_total :
    (sum : ℕ)
    → sum < 2 ^ 32
    → (r : ℕ) × (fold_from 3 sum ≡ some r)
      × (r < 2 ^ 16)
      × (r % 65535 ≡ sum % 65535)
      × ((r ≡ 0) ↔ (sum ≡ 0))
fold_from_total sum h = elim (dec_lt sum (2 ^ 16)) [
  | yes low ↦ (sum, fold_from_small 2 sum low, low, refl, (λ e. e, λ e. e))
  | no large ↦
      let one = folded sum in
      let (m1, p1, b1) = folded_keeps sum h (omega arith) in
      elim (dec_lt one (2 ^ 16)) [
        | yes low ↦ (
          one,
          fold_from_large 2 sum (omega arith) ∙ fold_from_small 1 one low,
          low,
          m1,
          (λ e. absurd (omega arith), λ e. absurd (omega arith)),
        )
        | no large' ↦
            let two = folded one in
            let (m2, p2, b2) = folded_keeps one (omega arith) (omega arith) in
            let low : two < 2 ^ 16 = omega arith in
            (
              two,
              fold_from_large 2 sum (omega arith)
                  ∙ fold_from_large 1 one (omega arith)
                  ∙ fold_from_small 0 two low,
              low,
              m2 ∙ m1,
              (λ e. absurd (omega arith), λ e. absurd (omega arith)),
            )
      ]
]

icmp_checksum_lem :
    (b : Bytes)
    → word_sum b < 2 ^ 32
    → (r : ℕ) × (icmp_checksum b ≡ some (65535 - r))
      × (r < 2 ^ 16)
      × (r % 65535 ≡ word_sum b % 65535)
      × ((r ≡ 0) ↔ (word_sum b ≡ 0))
unfolding icmp_checksum
icmp_checksum_lem b h =
    let e : sum_from 0 b ≡ word_sum b = omega (arith, sum_from-word_sum 0 b (omega arith)) in
    let (r, folds, low, m, z) = fold_from_total (word_sum b) h in
    let whole : r % 2 ^ 16 ≡ r = omega arith in
    (r, rw (e, icmp_checksum) (rw folds (rw whole refl)), low, m, z)

-- A sum and the complement of its folding make up a multiple of 65535 that is not 0.
complement :
    (total r r' : ℕ)
    → r < 2 ^ 16
    → r % 65535 ≡ total % 65535
    → (r ≡ 0) ↔ (total ≡ 0)
    → r' < 2 ^ 16
    → r' % 65535 ≡ (total + (65535 - r)) % 65535
    → (r' ≡ 0) ↔ (total + (65535 - r) ≡ 0)
    → r' ≡ 65535
complement total r r' low m z low' m' z' =
    let nonzero : total + (65535 - r) ≢ 0 = λ e. absurd (omega (arith, z.1 (omega arith))) in
    let pos : r' ≢ 0 = λ e. nonzero (z'.0 e) in
    let none_left : r' % 65535 ≡ 0 = m' ∙ omega arith in omega arith

-- A packet of at most 65535 bytes, its checksum field at bytes 2 and 3 zero,
-- gets a checksum of 16 bits; with that written into the field the packet has the checksum 0, which
-- is the receiver's test.
pub icmp_checksum_valid :
    (t c : ℕ) (rest : Bytes)
    → All IsByte (t ∷ c ∷ rest)
    → length rest ≤ 65531
    → (sum : ℕ) × (icmp_checksum (t ∷ c ∷ 0 ∷ 0 ∷ rest) ≡ some sum)
      × (sum < 2 ^ 16)
      × (icmp_checksum (t ∷ c ∷ (be16 sum ++ rest)) ≡ some 0)
unfolding word_sum
icmp_checksum_valid t c rest bytes short =
    let total = t * 256 + c + word_sum rest in
    let small : word_sum rest ≤ 65535 * 65531 = omega (arith, word_sum-le rest bytes.1.1) in
    let (r, e, low, m, z) = icmp_checksum_lem (t ∷ c ∷ 0 ∷ 0 ∷ rest) (omega arith) in
    let zeros : word_sum (t ∷ c ∷ 0 ∷ 0 ∷ rest) ≡ total = omega arith in
    let sum = 65535 - r in
    let (r', e', low', m', z') = icmp_checksum_lem (t ∷ c ∷ (be16 sum ++ rest)) (omega arith) in
    let sums : word_sum (t ∷ c ∷ (be16 sum ++ rest)) ≡ total + (65535 - r) = omega arith in
    let full : r' ≡ 65535 =
      complement total r r' low (rw zeros at m) (rw zeros at z) low' (rw sums at m')
        (rw sums at z') in
    (sum, e, omega arith, e' ∙ rw full refl)

sum_from-IsU32 : (sum : ℕ) (b : Bytes) → sum < 2 ^ 32 → sum_from sum b < 2 ^ 32
unfolding sum_from
sum_from-IsU32 sum [] h = h
sum_from-IsU32 sum (a ∷ []) h = omega arith
sum_from-IsU32 sum (a ∷ b ∷ rest) h =
    sum_from-IsU32 ((sum + (a * 256 + b)) % 2 ^ 32) rest (omega arith)

-- Every list of bytes has a checksum.
pub icmp_checksum_total : (b : Bytes) → (sum : ℕ) × (icmp_checksum b ≡ some sum)
unfolding icmp_checksum
icmp_checksum_total b =
    let (r, folds, low, m, z) = fold_from_total (sum_from 0 b) (sum_from-IsU32 0 b (omega arith)) in
    (65535 - r % 2 ^ 16, rw (folds, icmp_checksum) refl)
