-- ===== src/Common/Lists.antt =====
-- Lists measured and indexed by native numbers, under the library's names.
use Prim.Native.Nat.{ℕ, zero, suc, ◌+◌, ◌-◌, ◌≤◌, min}
use mathlib.Core.Path.{◌≡◌, refl, ap, ◌∙◌}
use mathlib.Core.Logic.{◌⊎◌, inl, inr}
use mathlib.Core.List.{List, [], ◌∷◌, ◌++◌, map}
use native.Mathlib.Omega.{arith}

module _ {ℓ} {A : Type ℓ} where
  abbrev pub length : List A → ℕ
  length [] = 0
  length (x ∷ xs) = suc (length xs)

  abbrev pub get_or : List A → ℕ → A → A
  get_or [] i d = d
  get_or (x ∷ xs) zero d = x
  get_or (x ∷ xs) (suc i) d = get_or xs i d

  abbrev pub take : ℕ → List A → List A
  take zero xs = []
  take (suc n) [] = []
  take (suc n) (x ∷ xs) = x ∷ take n xs

  abbrev pub drop : ℕ → List A → List A
  drop zero xs = xs
  drop (suc n) [] = []
  drop (suc n) (x ∷ xs) = drop n xs

  abbrev pub replicate : ℕ → A → List A
  replicate zero a = []
  replicate (suc n) a = a ∷ replicate n a

  abbrev pub All {κ} : (A → Type κ) → List A → Type κ
  All P [] = Unit {κ}
  All P (x ∷ xs) = P x × All P xs

  pub length-append : (xs ys : List A) → length (xs ++ ys) ≡ length xs + length ys
  length-append [] ys = omega arith
  length-append (x ∷ xs) ys = omega (arith, length-append xs ys)

  pub length-take : (n : ℕ) (xs : List A) → length (take n xs) ≡ min n (length xs)
  length-take zero xs = omega arith
  length-take (suc n) [] = omega arith
  length-take (suc n) (x ∷ xs) = omega (arith, length-take n xs)

  pub length-drop : (n : ℕ) (xs : List A) → length (drop n xs) ≡ length xs - n
  length-drop zero xs = omega arith
  length-drop (suc n) [] = omega arith
  length-drop (suc n) (x ∷ xs) = omega (arith, length-drop n xs)

  pub take_of_length-le : (n : ℕ) (xs : List A) → length xs ≤ n → take n xs ≡ xs
  take_of_length-le (suc n) [] short = refl
  take_of_length-le zero [] short = refl
  take_of_length-le zero (x ∷ rest) short = ground arith
  take_of_length-le (suc n) (x ∷ rest) short = ground (arith, take_of_length-le n rest)

  pub take-append_length : (xs ys : List A) → take (length xs) (xs ++ ys) ≡ xs
  take-append_length [] ys = refl
  take-append_length (x ∷ xs) ys = ap (◌∷◌ x) (take-append_length xs ys)

  pub drop-append_length : (xs ys : List A) → drop (length xs) (xs ++ ys) ≡ ys
  drop-append_length [] ys = refl
  drop-append_length (x ∷ xs) ys = drop-append_length xs ys

  drop_nil : (n : ℕ) → drop n [] ≡ []
  drop_nil zero = refl
  drop_nil (suc n) = refl

  pub drop-drop : (n k : ℕ) (xs : List A) → drop n (drop k xs) ≡ drop (k + n) xs
  drop-drop n zero xs = ap (λ j. drop j xs) (omega arith)
  drop-drop n (suc k) [] = ground (arith, drop_nil n, drop_nil (suc k + n))
  drop-drop n (suc k) (x ∷ xs) =
      let e : suc (k + n) ≡ suc k + n = omega arith in
      drop-drop n k xs ∙ ap (λ j. drop j (x ∷ xs)) e

  pub All-append {κ} : (P : A → Type κ) (xs ys : List A) → All P xs → All P ys → All P (xs ++ ys)
  All-append P [] ys p q = q
  All-append P (x ∷ xs) ys p q = (p.0, All-append P xs ys p.1 q)

  pub All-map {κ μ} :
      (P : A → Type κ) (Q : A → Type μ) (f : (x : A) → P x → Q x) (xs : List A)
      → All P xs
      → All Q xs
  All-map P Q f [] p = tt
  All-map P Q f (x ∷ xs) p = (f x p.0, All-map P Q f xs p.1)

  pub All-take {κ} : (P : A → Type κ) (n : ℕ) (xs : List A) → All P xs → All P (take n xs)
  All-take P zero xs p = tt
  All-take P (suc n) [] p = tt
  All-take P (suc n) (x ∷ xs) p = (p.0, All-take P n xs p.1)

pub length-map {ℓ κ} :
    {A : Type ℓ} {B : Type κ} (xs : List A) (f : A → B) → length (map f xs) ≡ length xs
length-map [] f = refl
length-map (x ∷ xs) f = ap suc (length-map xs f)

pub List-cases {ℓ} :
    {A : Type ℓ} (l : List A) → (l ≡ []) ⊎ ((x : A) × (xs : List A) × (l ≡ (x ∷ xs)))
List-cases [] = inl refl
List-cases (x ∷ xs) = inr (x, xs, refl)

-- A property of the lists of a given length, as arrays are, from that of the lists written out.
module _ {ℓ κ} {A : Type ℓ} (P : List A → Type κ) where
  pub by_four :
      ((a : A) (b : A) (c : A) (d : A) → P (a ∷ b ∷ c ∷ d ∷ []))
      → (xs : List A) → length xs ≡ 4
      → P xs
  by_four f (a ∷ b ∷ c ∷ d ∷ []) h = f a b c d
  by_four f [] h = absurd (omega arith)
  by_four f (a ∷ []) h = absurd (omega arith)
  by_four f (a ∷ b ∷ []) h = absurd (omega arith)
  by_four f (a ∷ b ∷ c ∷ []) h = absurd (omega arith)
  by_four f (a ∷ b ∷ c ∷ d ∷ e ∷ r) h = absurd (omega arith)

module _ {ℓ κ} {A : Type ℓ} (P : List A → Type κ) where
  pub by_six :
      ((a : A) (b : A) (c : A) (d : A) (e : A) (g : A) → P (a ∷ b ∷ c ∷ d ∷ e ∷ g ∷ []))
      → (xs : List A) → length xs ≡ 6
      → P xs
  by_six f [] h = absurd (omega arith)
  by_six f (a ∷ []) h = absurd (omega arith)
  by_six f (a ∷ b ∷ r) h = by_four (λ r. P (a ∷ b ∷ r)) (f a b) r (omega arith)

module _ {ℓ κ} {A : Type ℓ} (P : List A → Type κ) where
  pub by_ten :
      ((a : A) (b : A) (c : A) (d : A) (r : List A) → length r ≡ 6 → P (a ∷ b ∷ c ∷ d ∷ r))
      → (xs : List A) → length xs ≡ 10
      → P xs
  by_ten f (a ∷ b ∷ c ∷ d ∷ r) h = f a b c d r (omega arith)
  by_ten f [] h = absurd (omega arith)
  by_ten f (a ∷ []) h = absurd (omega arith)
  by_ten f (a ∷ b ∷ []) h = absurd (omega arith)
  by_ten f (a ∷ b ∷ c ∷ []) h = absurd (omega arith)
