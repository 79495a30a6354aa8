-- ===== src/Icmp/Checksum/Fields.antt =====
-- The checksum in a header whose field stands anywhere.
use uml_kernel_build.Common.{
  ℕ, ◌+◌, ◌-◌, ◌*◌, ◌%◌, ◌^◌, ◌≤◌, ◌<◌, ◌≡◌, ◌↔◌, refl, ◌∙◌, some, [], ◌∷◌, ◌++◌, arith, nat_eq,
  bytes_eq, length, All, Bytes, IsByte, be16,
}
use uml_kernel_build.Icmp.Checksum.{
  icmp_checksum, word_sum, word_sum-le, icmp_checksum_lem, complement,
}

word_sum-append : (a b : Bytes) → length a % 2 ≡ 0 → word_sum (a ++ b) ≡ word_sum a + word_sum b
unfolding word_sum
word_sum-append [] b h = omega arith
word_sum-append (x ∷ []) b h = absurd (omega arith)
word_sum-append (x ∷ y ∷ a) b h = omega (arith, word_sum-append a b (omega arith))

lem_at :
    (b : Bytes) (total : ℕ)
    → word_sum b ≡ total
    → total < 2 ^ 32
    → (r : ℕ) × (icmp_checksum b ≡ some (65535 - r))
      × (r < 2 ^ 16)
      × (r % 65535 ≡ total % 65535)
      × ((r ≡ 0) ↔ (total ≡ 0))
lem_at b total e small = rw e at (icmp_checksum_lem b (rw e small))

-- `patch sum` is the message with the sum written into its field.
patched :
    (b : Bytes) (patch : ℕ → Bytes) (total : ℕ)
    → word_sum b ≡ total
    → total ≤ 65535 * 65533
    → ((sum : ℕ) → sum < 2 ^ 16 → word_sum (patch sum) ≡ total + sum)
    → (sum : ℕ) × (icmp_checksum b ≡ some sum)
      × (sum < 2 ^ 16)
      × (icmp_checksum (patch sum) ≡ some 0)
patched b patch total zeros small sums =
    let (r, e, low, m, z) = lem_at b total zeros (omega arith) in
    let (r', e', low', m', z') =
      lem_at (patch (65535 - r)) (total + (65535 - r)) (sums (65535 - r) (omega arith))
        (omega arith) in
    let full : r' ≡ 65535 = complement total r r' low m z low' m' z' in
    (65535 - r, e, omega arith, e' ∙ rw full refl)

-- The checksum of bytes whose field, zero so far, stands at an even place: with the sum written into it
-- they have the checksum 0.
pub icmp_checksum-field :
    (a b : Bytes)
    → All IsByte a
    → All IsByte b
    → length a % 2 ≡ 0
    → length a + length b ≤ 65533
    → (sum : ℕ) × (icmp_checksum (a ++ (0 ∷ 0 ∷ b)) ≡ some sum)
      × (sum < 2 ^ 16)
      × (icmp_checksum (a ++ (be16 sum ++ b)) ≡ some 0)
unfolding word_sum
icmp_checksum-field a b bytes bytes' even short =
    let small : word_sum a + word_sum b ≤ 65535 * 65533 =
      omega (arith, word_sum-le a bytes, word_sum-le b bytes') in
    patched (a ++ (0 ∷ 0 ∷ b)) (λ sum. a ++ (be16 sum ++ b)) (word_sum a + word_sum b)
      (omega (arith, word_sum-append a (0 ∷ 0 ∷ b) even)) small
      (λ sum low. omega (arith, word_sum-append a (be16 sum ++ b) even))
