-- ===== src/Common/Slices.antt =====
-- Byte slices as lists of numbers below 256: equality, slicing, `copy` into a fixed array, and
-- `binary.BigEndian`.
use Prim.Native.Nat.{ℕ, zero, suc, ◌+◌, ◌-◌, ◌*◌, ◌/◌, ◌%◌, ◌^◌, ◌<◌}
use Prim.Native.Char.{code}
use Prim.Native.String.{String}
use mathlib.Core.Path.{◌≡◌, refl, ap}
use mathlib.Core.Bool.{Bool, true, false, ◌&&◌, ◌||◌}
use mathlib.Core.Option.{Option, none, some}
use mathlib.Core.Logic.{◌↔◌}
use mathlib.Core.List.{List, [], ◌∷◌}
use native.Mathlib.Omega.{arith}
use uml_kernel_build.Common.Order.{Eq, ◌==◌, ltb, if◌then◌else◌}
use uml_kernel_build.Common.Lists.{length, take, drop, get_or, All}

abbrev pub Bytes : Type 0
Bytes = List ℕ

-- The bytes of a literal in ASCII.
abbrev pub codes : String → Bytes
codes String.[] = []
codes (String.◌∷◌ c s) = code c ∷ codes s

abbrev pub IsByte : ℕ → Type 0
IsByte b = b < 256

abbrev pub IsU16 : ℕ → Type 0
IsU16 n = n < 2 ^ 16

abbrev pub IsU32 : ℕ → Type 0
IsU32 n = n < 2 ^ 32

abbrev pub bytes_beq : Bytes → Bytes → Bool
bytes_beq [] [] = true
bytes_beq (a ∷ as') (b ∷ bs) = (a == b) && bytes_beq as' bs
bytes_beq _ _ = false

pub bytes_beq-eq : (a b : Bytes) → bytes_beq a b ≡ true → a ≡ b
bytes_beq-eq [] [] h = refl
bytes_beq-eq [] (y ∷ b) h = cc
bytes_beq-eq (x ∷ a) [] h = cc
bytes_beq-eq (x ∷ a) (y ∷ b) h = ground (arith, bytes_beq-eq a b)

pub bytes_beq_self : (a : Bytes) → bytes_beq a a ≡ true
bytes_beq_self [] = refl
bytes_beq_self (x ∷ a) = ground (arith, bytes_beq_self a)

pub bytes_beq_iff : (a b : Bytes) → (bytes_beq a b ≡ true) ↔ (a ≡ b)
bytes_beq_iff a b = (bytes_beq-eq a b, λ e. rw e (bytes_beq_self b))

instance abbrev pub bytes_eq : Eq Bytes
bytes_eq = record { beq = bytes_beq; beq_iff = bytes_beq_iff }

-- `b[i]`. The source tests the length first; out of range Go panics and this is 0.
abbrev pub byte_at : Bytes → ℕ → ℕ
byte_at b i = get_or b i 0

-- `b[lo:hi]`
abbrev pub slice : ℕ → ℕ → Bytes → Bytes
slice lo hi b = take (hi - lo) (drop lo b)

-- The same where the bounds are not known to fit: `none` is Go's panic. The capacity of the frames
-- that are sliced so is their length.
unfoldable pub cut : ℕ → ℕ → Bytes → Option Bytes
cut lo hi b = if ltb hi lo || ltb (length b) hi then none else some (slice lo hi b)

-- `copy(array[:], src)` into an array of `n` zero bytes.
abbrev pub copy_n : ℕ → Bytes → Bytes
copy_n zero src = []
copy_n (suc n) src = get_or src 0 0 ∷ copy_n n (drop 1 src)

pub copy_n_lem : (n : ℕ) (src : Bytes) → length src ≡ n → copy_n n src ≡ src
copy_n_lem zero [] h = refl
copy_n_lem zero (x ∷ src) h = absurd (omega arith)
copy_n_lem (suc n) [] h = absurd (omega arith)
copy_n_lem (suc n) (x ∷ src) h = ap (◌∷◌ x) (copy_n_lem n src (omega arith))

pub length-copy_n : (n : ℕ) (src : Bytes) → length (copy_n n src) ≡ n
length-copy_n zero src = refl
length-copy_n (suc n) src = ap suc (length-copy_n n (drop 1 src))

-- `BigEndian.PutUint16` and `PutUint32`; `Uint16` and `Uint32` read the first bytes.
abbrev pub be16 : ℕ → Bytes
be16 n = (n / 256 % 256) ∷ (n % 256) ∷ []

abbrev pub be32 : ℕ → Bytes
be32 n = (n / 16777216 % 256) ∷ (n / 65536 % 256) ∷ (n / 256 % 256) ∷ (n % 256) ∷ []

abbrev pub read16 : Bytes → ℕ
read16 b = byte_at b 0 * 256 + byte_at b 1

abbrev pub read32 : Bytes → ℕ
read32 b = byte_at b 0 * 16777216 + byte_at b 1 * 65536 + byte_at b 2 * 256 + byte_at b 3

pub read16-be16 : (n : ℕ) → IsU16 n → read16 (be16 n) ≡ n
read16-be16 n h = omega arith

pub read32-be32 : (n : ℕ) → IsU32 n → read32 (be32 n) ≡ n
read32-be32 n h = omega arith

pub be32-read32 : (a : Bytes) → length a ≡ 4 → All IsByte a → be32 (read32 a) ≡ a
be32-read32 (a ∷ b ∷ c ∷ d ∷ []) h p = ground arith
be32-read32 [] h p = absurd (omega arith)
be32-read32 (a ∷ []) h p = absurd (omega arith)
be32-read32 (a ∷ b ∷ []) h p = absurd (omega arith)
be32-read32 (a ∷ b ∷ c ∷ []) h p = absurd (omega arith)
be32-read32 (a ∷ b ∷ c ∷ d ∷ e ∷ r) h p = absurd (omega arith)
