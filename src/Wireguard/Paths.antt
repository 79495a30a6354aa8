-- ===== src/Wireguard/Paths.antt =====
-- Which file configures the tunnel: `ResolvePath` of vdeplug-go/internal/wgup/conf.go.
use uml_kernel_build.Common.{
  ◌-◌, ◌≡◌, inl, inr, refl, sym, ap, Bool, true, false, not, ◌&&◌, Option, none, some, List, [],
  ◌∷◌, ◌++◌, arith, ltb, leb, ◌==◌, if◌then◌else◌, Bool-cases, nat_eq, bytes_eq, length, drop, All,
  codes, bytes_beq,
}
use mathlib.Core.Path.{subst}
use uml_kernel_build.Config.Strings.{Text}

-- The file system: which paths exist, the working directory, the entries of a directory, each with
-- whether it is a directory, and `filepath.Join`.
pub record Files : Type 0 where
  pub exists : Text → Bool
  pub working : Option Text
  pub entries : Text → Option (List (Text × Bool))
  pub join : Text → Text → Text

-- `<` on strings: by bytes, a prefix first.
unfoldable pub text_ltb : Text → Text → Bool
text_ltb [] [] = false
text_ltb [] (d ∷ t) = true
text_ltb (c ∷ s) [] = false
text_ltb (c ∷ s) (d ∷ t) = let rest = text_ltb s t in if ltb c d then true else (c == d) && rest

unfoldable pub is_conf : Text → Bool
is_conf name = leb 5 (length name) && bytes_beq (drop (length name - 5) name) (codes ".conf")

unfoldable pub conf_names : List (Text × Bool) → List Text
unfolding is_conf
conf_names [] = []
conf_names ((name, is_dir) ∷ files) =
    let rest = conf_names files in if not is_dir && is_conf name then name ∷ rest else rest

-- The first of the names in order.
unfoldable pub least : Text → List Text → Text
unfolding text_ltb
least name [] = name
least name (other ∷ names) =
    let kept = least name names in
    let changed = least other names in if text_ltb other name then changed else kept

-- `none` is an error.
unfoldable pub resolve_path : Files → Text → Option Text
unfolding conf_names least
resolve_path fs override =
    if not (length override == 0)
    then (if fs.exists override then some override else none)
    else elim fs.working [
      | none ↦ none
      | some wd ↦
          let dir = fs.join (fs.join wd (codes ".config")) (codes "wireguard") in
          elim (fs.entries dir) [
            | none ↦ none
            | some files ↦ elim (conf_names files) [
              | [] ↦ none
              | name ∷ names ↦ some (fs.join dir (least name names))
            ]
          ]
    ]

text_ltb_step : (a b c : Text) → text_ltb a b ≡ false → text_ltb b c ≡ false → text_ltb a c ≡ false
unfolding text_ltb
text_ltb_step [] [] c h k = k
text_ltb_step [] (y ∷ b) c h k = absurd (ground arith)
text_ltb_step (x ∷ a) [] [] h k = refl
text_ltb_step (x ∷ a) [] (z ∷ c) h k = absurd (ground arith)
text_ltb_step (x ∷ a) (y ∷ b) [] h k = refl
text_ltb_step (x ∷ a) (y ∷ b) (z ∷ c) h k = ground (arith, text_ltb_step a b c)

text_ltb_asym : (a b : Text) → text_ltb a b ≡ true → text_ltb b a ≡ false
unfolding text_ltb
text_ltb_asym [] [] h = refl
text_ltb_asym [] (y ∷ b) h = refl
text_ltb_asym (x ∷ a) [] h = absurd (ground arith)
text_ltb_asym (x ∷ a) (y ∷ b) h = ground (arith, text_ltb_asym a b)

text_ltb_self : (a : Text) → text_ltb a a ≡ false
unfolding text_ltb
text_ltb_self [] = refl
text_ltb_self (x ∷ a) = ground (arith, text_ltb_self a)

-- None of the names comes before `m`.
NoneBefore : List Text → Text → Type 0
NoneBefore names m = All (λ (other : Text). text_ltb other m ≡ false) names

first_moves :
    (name other : Text) (names : List Text) {m m' : Text}
    → m ≡ m'
    → NoneBefore (name ∷ other ∷ names) m'
    → NoneBefore (name ∷ other ∷ names) m
first_moves name other names same h =
    subst (λ (m : Text). NoneBefore (name ∷ other ∷ names) m) (sym same) h

least_bound : (name : Text) (names : List Text) → NoneBefore (name ∷ names) (least name names)
unfolding least NoneBefore
least_bound name [] = (text_ltb_self name, tt)
least_bound name (other ∷ names) = elim (Bool-cases (text_ltb other name)) [
  | inl earlier ↦
      let (mine, all) = least_bound other names in
      let after =
        text_ltb_step name other (least other names) (text_ltb_asym other name earlier) mine in
      let taken : least name (other ∷ names) ≡ least other names = rw (earlier, least) refl in
      first_moves name other names taken (after, (mine, all))
  | inr later ↦
      let (mine, all) = least_bound name names in
      let stays : least name (other ∷ names) ≡ least name names = rw (later, least) refl in
      first_moves name other names stays
        (mine, (text_ltb_step other name (least name names) later mine, all))
]

least_member :
    (name : Text) (names : List Text)
    → (before : List Text) × (after : List Text) × (name ∷ names
        ≡ before ++ (least name names ∷ after))
unfolding least
least_member name [] = ([], [], refl)
least_member name (other ∷ names) = elim (Bool-cases (text_ltb other name)) [
  | inl earlier ↦
      let (before, after, at) = least_member other names in
      rw (earlier, least) (name ∷ before, after, ap (◌∷◌ name) at)
  | inr later ↦
      let (before, after, at) = least_member name names in
      rw (later, least) (least_skip name other names before after (least name names) at)
]
  where
    least_skip :
        (name other : Text) (names before after : List Text) (m : Text)
        → name ∷ names ≡ before ++ (m ∷ after)
        → (before' : List Text) × (after' : List Text) × (name ∷ other ∷ names
            ≡ before' ++ (m ∷ after'))
    least_skip name other names [] after m at =
        let here : name ≡ m = ground arith in rw here ([], other ∷ names, refl)
    least_skip name other names (b ∷ before) after m at =
        let here : name ≡ b = ground arith in
        let rest : names ≡ before ++ (m ∷ after) = ground arith in
        (name ∷ other ∷ before, after, ap (λ r. name ∷ other ∷ r) rest)

resolve_path_lem :
    (fs : Files) (wd name : Text) (names : List Text) (files : List (Text × Bool))
    → fs.working ≡ some wd
    → fs.entries (fs.join (fs.join wd (codes ".config")) (codes "wireguard")) ≡ some files
    → conf_names files ≡ name ∷ names
    → resolve_path fs []
      ≡ some
          (fs.join (fs.join (fs.join wd (codes ".config")) (codes "wireguard")) (least name names))
unfolding resolve_path
resolve_path_lem fs wd name names files here listed confs =
    rw (here, resolve_path) (rw (listed, resolve_path) (rw (confs, resolve_path) refl))

-- Without an override the file taken is one of the `.conf` files of the directory, none of which comes
-- before it in the order of their names.
pub resolve_path_first :
    (fs : Files) (wd name : Text) (names : List Text) (files : List (Text × Bool))
    → fs.working ≡ some wd
    → fs.entries (fs.join (fs.join wd (codes ".config")) (codes "wireguard")) ≡ some files
    → conf_names files ≡ name ∷ names
    → (chosen : Text) × (resolve_path fs []
        ≡ some (fs.join (fs.join (fs.join wd (codes ".config")) (codes "wireguard")) chosen))
      × ((before : List Text) × (after : List Text) × (conf_names files
            ≡ before ++ (chosen ∷ after)))
      × All (λ (other : Text). text_ltb other chosen ≡ false) (conf_names files)
unfolding NoneBefore
resolve_path_first fs wd name names files here listed confs =
    let (first, all) = least_bound name names in
    (
      least name names,
      resolve_path_lem fs wd name names files here listed confs,
      rw confs (least_member name names),
      rw confs (first, all),
    )
