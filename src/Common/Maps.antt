-- ===== src/Common/Maps.antt =====
-- Go maps as association lists. A key stands once in what `insert` builds.
use Prim.Native.Nat.{suc}
use mathlib.Core.Path.{◌≡◌, refl, sym, ◌∙◌}
use mathlib.Core.Bool.{true, false}
use mathlib.Core.Logic.{◌≢◌, ◌⊎◌, inl, inr}
use mathlib.Core.List.{List, [], ◌∷◌}
use mathlib.Core.Option.{Option, none, some}
use native.Mathlib.Omega.{arith}
use uml_kernel_build.Common.Order.{Eq, if◌then◌else◌, Bool-cases}
use uml_kernel_build.Common.Lists.{length, All}

abbrev pub Dict {ℓ κ} : Type ℓ → Type κ → Type (ℓ ⊔ κ)
Dict K V = List (K × V)

pub beq_self {ℓ} : {K : Type ℓ} ⦃e : Eq K⦄ (k : K) → e.beq k k ≡ true
beq_self ⦃e⦄ k = (e.beq_iff k k).1 refl

module _ {ℓ κ} {K : Type ℓ} {V : Type κ} ⦃e : Eq K⦄ where
  unfoldable pub lookup : K → Dict K V → Option V
  lookup k [] = none
  lookup k ((j, v) ∷ m) = if e.beq j k then some v else lookup k m

  unfoldable pub insert : K → V → Dict K V → Dict K V
  insert k v [] = (k, v) ∷ []
  insert k v ((j, w) ∷ m) = if e.beq j k then (k, v) ∷ m else (j, w) ∷ insert k v m

  -- `delete(m, k)`
  unfoldable pub erase : K → Dict K V → Dict K V
  erase k [] = []
  erase k ((j, w) ∷ m) = if e.beq j k then erase k m else (j, w) ∷ erase k m

  pub lookup-insert :
      (k j : K) (v : V) (m : Dict K V)
      → lookup j (insert k v m) ≡ (if e.beq k j then some v else lookup j m)
  unfolding lookup insert
  lookup-insert k j v [] = refl
  lookup-insert k j v ((i, w) ∷ m) =
      ground (arith, e.beq_iff k j, e.beq_iff i k, e.beq_iff i j, lookup-insert k j v m)

  pub lookup-erase :
      (k j : K) (m : Dict K V) → lookup j (erase k m) ≡ (if e.beq k j then none else lookup j m)
  unfolding lookup erase
  lookup-erase k j [] = ground arith
  lookup-erase k j ((i, w) ∷ m) =
      ground (arith, e.beq_iff k j, e.beq_iff i k, e.beq_iff i j, lookup-erase k j m)

  -- Where an entry that is found after a write comes from.
  pub lookup-insert_inv :
      (k j : K) (v w : V) (m : Dict K V)
      → lookup j (insert k v m) ≡ some w
      → ((j ≡ k) × (w ≡ v)) ⊎ ((j ≢ k) × (lookup j m ≡ some w))
  lookup-insert_inv k j v w m h = elim (Bool-cases (e.beq k j)) [
    | inl y ↦
        let found : lookup j (insert k v m) ≡ some v = rw (lookup-insert k j v m, y) refl in
        inl (sym ((e.beq_iff k j).0 y), ground arith)
    | inr n ↦
        let found : lookup j (insert k v m) ≡ lookup j m = rw (lookup-insert k j v m, n) refl in
        inr (λ p. cc ((e.beq_iff k j).1 (sym p)), sym found ∙ h)
  ]

  -- Where an entry that is left after a deletion comes from.
  pub lookup-erase_inv :
      (k j : K) (w : V) (m : Dict K V)
      → lookup j (erase k m) ≡ some w
      → (j ≢ k) × (lookup j m ≡ some w)
  lookup-erase_inv k j w m h = elim (Bool-cases (e.beq k j)) [
    | inl y ↦
        let gone : lookup j (erase k m) ≡ none = rw (lookup-erase k j m, y) refl in absurd (cc)
    | inr n ↦
        let found : lookup j (erase k m) ≡ lookup j m = rw (lookup-erase k j m, n) refl in
        (λ p. cc ((e.beq_iff k j).1 (sym p)), sym found ∙ h)
  ]

  -- A write to a new key adds one entry.
  pub length-insert_new :
      (k : K) (v : V) (m : Dict K V) → lookup k m ≡ none → length (insert k v m) ≡ suc (length m)
  unfolding lookup insert
  length-insert_new k v [] h = refl
  length-insert_new k v ((j, w) ∷ m) h = ground (arith, length-insert_new k v m)

  pub All-insert {μ} :
      (P : K × V → Type μ) (k : K) (v : V) (m : Dict K V)
      → P (k, v)
      → All P m
      → All P (insert k v m)
  unfolding insert
  All-insert P k v [] p a = (p, tt)
  All-insert P k v ((j, w) ∷ m) p a = elim (Bool-cases (e.beq j k)) [
    | inl y ↦ rw (y, insert) (p, a.1)
    | inr n ↦ rw (n, insert) (a.0, All-insert P k v m p a.1)
  ]

  pub All-erase {μ} : (P : K × V → Type μ) (k : K) (m : Dict K V) → All P m → All P (erase k m)
  unfolding erase
  All-erase P k [] a = tt
  All-erase P k ((j, w) ∷ m) a = elim (Bool-cases (e.beq j k)) [
    | inl y ↦ rw (y, erase) (All-erase P k m a.1)
    | inr n ↦ rw (n, erase) (a.0, All-erase P k m a.1)
  ]

  -- What an entry that is found satisfies.
  pub All-lookup {μ} :
      (P : K × V → Type μ) (k : K) {v : V} (m : Dict K V) → All P m → lookup k m ≡ some v → P (k, v)
  unfolding lookup
  All-lookup P k [] a h = cc
  All-lookup P k {v} ((j, w) ∷ m) a h = elim (Bool-cases (e.beq j k)) [
    | inl y ↦
        let p : j ≡ k = (e.beq_iff j k).0 y in let q : w ≡ v = ground arith in rw (← p, ← q) a.0
    | inr n ↦ All-lookup P k m a.1 (ground arith)
  ]

module _ {ℓ κ} {K : Type ℓ} {V : Type κ} ⦃e : Eq K⦄ where
  -- No key stands twice.
  abbrev pub NodupKeys : Dict K V → Type (ℓ ⊔ κ)
  NodupKeys [] = Unit
  NodupKeys ((k, v) ∷ m) = (lookup k m ≡ none) × NodupKeys m

  pub NodupKeys-insert : (k : K) (v : V) (m : Dict K V) → NodupKeys m → NodupKeys (insert k v m)
  unfolding insert lookup
  NodupKeys-insert k v [] n = (refl, tt)
  NodupKeys-insert k v ((j, w) ∷ m) n = elim (Bool-cases (e.beq j k)) [
    | inl y ↦ rw (y, insert) (rw ((e.beq_iff j k).0 y) at n.0, n.1)
    | inr x ↦ rw (x, insert) (rw (lookup-insert k j v m, other j x) n.0, NodupKeys-insert k v m n.1)
  ]
    where
      other : (j : K) → e.beq j k ≡ false → e.beq k j ≡ false
      other j x = ground (arith, e.beq_iff j k, e.beq_iff k j)

  pub NodupKeys-erase : (k : K) (m : Dict K V) → NodupKeys m → NodupKeys (erase k m)
  unfolding erase
  NodupKeys-erase k [] n = tt
  NodupKeys-erase k ((j, w) ∷ m) n = elim (Bool-cases (e.beq j k)) [
    | inl y ↦ rw (y, erase) (NodupKeys-erase k m n.1)
    | inr x ↦ rw (x, erase) (ground (arith, lookup-erase k j m, n.0), NodupKeys-erase k m n.1)
  ]

  -- A deletion of a key that is not there.
  pub erase_absent : (k : K) (m : Dict K V) → lookup k m ≡ none → erase k m ≡ m
  unfolding lookup erase
  erase_absent k [] h = refl
  erase_absent k ((j, w) ∷ m) h = ground (arith, erase_absent k m)
