-- ===== src/Tap.antt =====
-- The tap uplink, vdeplug-go/internal/tap/tap.go, and its reader in `runInstance` of vdeplug-go/main.go.
use uml_kernel_build.Common.{
  ℕ, zero, suc, ◌+◌, ◌≤◌, ◌<◌, ◌≡◌, ◌≢◌, refl, Bool, true, false, Option, none, some, List, [], ◌∷◌,
  ◌++◌, arith, ltb, ◌==◌, if◌then◌else◌, nat_eq, bytes_eq, length, All, Bytes, copy_n,
}
use uml_kernel_build.Config.Strings.{Text}
use uml_kernel_build.Switch.{Switch, Sent, uplink, forward}

-- IFF_TAP and IFF_NO_PI.
abbrev pub tap_flags : ℕ
tap_flags = 0x0002 + 0x1000

pub record Device : Type 0 where
  pub name : Text

unfoldable pub trim_nul : Text → Text
trim_nul [] = []
trim_nul (c ∷ s) =
    let rest = trim_nul s in elim rest [ [] ↦ if c == 0 then [] else c ∷ [] | d ∷ t ↦ c ∷ (d ∷ t) ]

-- `opens` is whether /dev/net/tun can be opened, and `set_iff` is TUNSETIFF: the 16 bytes of the name
-- that it leaves in the request, none for an error. `none` is an error of `Open`.
unfoldable pub open_tap : Bool → (Bytes → ℕ → Option Bytes) → Text → Option Device
unfolding trim_nul
open_tap opens set_iff name =
    if ltb 15 (length name)
    then none
    else if opens
    then elim (set_iff (copy_n 16 name) tap_flags) [
      | none ↦ none
      | some actual ↦ some (record { name = trim_nul actual })
    ]
    else none

-- The reader: each frame with its time of arrival, up to the first error.
unfoldable pub tap_frames : List (ℕ × Bytes) → Switch → List Sent × Switch
tap_frames [] s = ([], s)
tap_frames ((now, frame) ∷ frames) s =
    if ltb (length frame) 14
    then tap_frames frames s
    else let (sent, s1) = forward now uplink frame s in
      let (more, s2) = tap_frames frames s1 in (sent ++ more, s2)

-- A name that can stand in the request.
pub NoNul : Text → Type 0
NoNul name = All (λ c. c ≢ 0) name

trim_nul-zeros : (n : ℕ) → trim_nul (copy_n n []) ≡ []
unfolding trim_nul
trim_nul-zeros zero = refl
trim_nul-zeros (suc n) = rw (trim_nul-zeros n, trim_nul) refl

trim_nul-copy_n :
    (n : ℕ) (name : Text) → NoNul name → length name ≤ n → trim_nul (copy_n n name) ≡ name
unfolding trim_nul NoNul
trim_nul-copy_n n [] h fits = trim_nul-zeros n
trim_nul-copy_n zero (c ∷ s) h fits = absurd (omega arith)
trim_nul-copy_n (suc n) (c ∷ []) h fits = rw (trim_nul-zeros n, trim_nul) (ground (arith, h))
trim_nul-copy_n (suc n) (c ∷ (d ∷ s)) h fits =
    rw (trim_nul-copy_n n (d ∷ s) h.1 (omega arith), trim_nul) refl

-- A name of at most 15 characters without a NUL reaches the kernel whole: when it can open the device
-- and keeps the name, the device is the one that was asked for. A longer name is refused before the
-- kernel is asked.
pub open_tap_name :
    (set_iff : Bytes → ℕ → Option Bytes) (name long : Text)
    → set_iff (copy_n 16 name) tap_flags ≡ some (copy_n 16 name)
    → NoNul name
    → length name ≤ 15
    → 15 < length long
    → (open_tap true set_iff name ≡ some (record { name = name }))
      × (open_tap true set_iff long ≡ none)
unfolding open_tap
open_tap_name set_iff name long kept h fits over =
    let short : ltb 15 (length name) ≡ false = ground arith in
    (rw (short, kept, open_tap, trim_nul-copy_n 16 name h (omega arith)) refl, ground arith)
