-- ===== src/Startup/Descriptor.antt =====
-- Where the descriptor of the link comes from.
use uml_kernel_build.Common.{
  ◌≡◌, ◌≢◌, ◌⊎◌, inl, inr, refl, ap, Bool, true, false, some, List, [], ◌∷◌, ◌++◌, ◌==◌, Bool-cases,
  Option-cases, nat_eq, bytes_eq, length, get_or, drop,
}
use uml_kernel_build.Common.{ℤ, negsuc}
use uml_kernel_build.Config.Strings.{Text, cut_prefix, atoi}
use uml_kernel_build.Startup.{Args, seqpacket, descr_flag, parse_args_from, parse_args}

-- An argument "seqpacket://" with this number.
Given : ℤ → List Text → Type 0
Given n argv =
    (before : List Text) × (arg : Text) × (after : List Text) × (number : Text) × (argv
      ≡ before ++ (arg ∷ after))
    × (cut_prefix seqpacket arg ≡ some number)
    × (atoi number ≡ some n)

Given-later : (n : ℤ) (first : Text) (argv : List Text) → Given n argv → Given n (first ∷ argv)
unfolding Given
Given-later n first argv (before, arg, after, number, at, p, q) =
    (first ∷ before, arg, after, number, ap (◌∷◌ first) at, p, q)

-- The descriptor after the loop is the one before it or was given.
FdFrom : ℤ → ℤ → List Text → Type 0
FdFrom old new argv = (new ≡ old) ⊎ Given new argv

FdFrom-later :
    (old new : ℤ) (first : Text) (argv : List Text)
    → FdFrom old new argv
    → FdFrom old new (first ∷ argv)
unfolding FdFrom
FdFrom-later old new first argv (inl same) = inl same
FdFrom-later old new first argv (inr given) = inr (Given-later new first argv given)

FdFrom-Given :
    (old n new : ℤ) (first : Text) (argv : List Text)
    → Given n (first ∷ argv)
    → FdFrom n new argv
    → FdFrom old new (first ∷ argv)
unfolding FdFrom
FdFrom-Given old n new first argv here (inl same) = inr (rw same here)
FdFrom-Given old n new first argv here (inr given) = inr (Given-later new first argv given)

parse_args_from-fd :
    (takes_descr : Bool) (argv : List Text) (a : Args)
    → FdFrom a.fd (parse_args_from takes_descr argv a).fd argv
unfolding parse_args_from
parse_args_from-fd true [] a = unfold FdFrom in inl refl
parse_args_from-fd false [] a = unfold FdFrom in inl refl
parse_args_from-fd true (arg ∷ argv) a =
    FdFrom-later a.fd _ arg argv (parse_args_from-fd false argv (record a { descr = arg }))
parse_args_from-fd false (arg ∷ argv) a = elim (Option-cases (cut_prefix seqpacket arg)) [
  | inr (rest, e) ↦ elim (Option-cases (atoi rest)) [
    | inl bad ↦
        rw (e, bad, parse_args_from)
          (FdFrom-later a.fd _ arg argv (parse_args_from-fd false argv a))
    | inr (n, got) ↦
        let here : Given n (arg ∷ argv) = unfold Given in ([], arg, argv, rest, refl, e, got) in
        rw (e, got, parse_args_from)
          (FdFrom-Given a.fd n _ arg argv here
            (parse_args_from-fd false argv (record a { fd = n })))
  ]
  | inl e ↦ elim (Option-cases (cut_prefix descr_flag arg)) [
    | inr (rest, f) ↦ elim (Bool-cases (get_or rest 0 0 == 61)) [
      | inl joined ↦
          rw (e, f, joined, parse_args_from)
            (FdFrom-later a.fd _ arg argv
              (parse_args_from-fd false argv (record a { descr = drop 1 rest })))
      | inr bare ↦
          rw (e, f, bare, parse_args_from)
            (FdFrom-later a.fd _ arg argv (parse_args_from-fd (length rest == 0) argv a))
    ]
    | inl f ↦ elim (Bool-cases (get_or arg 0 0 == 45)) [
      | inl flag ↦
          rw (e, f, flag, parse_args_from)
            (FdFrom-later a.fd _ arg argv (parse_args_from-fd false argv a))
      | inr word ↦ elim (Bool-cases (length a.descr == 0)) [
        | inl first ↦
            rw (e, f, word, first, parse_args_from)
              (FdFrom-later a.fd _ arg argv
                (parse_args_from-fd false argv (record a { descr = arg })))
        | inr later ↦
            rw (e, f, word, later, parse_args_from)
              (FdFrom-later a.fd _ arg argv
                (parse_args_from-fd false argv (record a { vnl = arg })))
      ]
    ]
  ]
]

-- The descriptor of the link is -1, which the caller refuses, unless an argument "seqpacket://" with
-- that very number was given: nothing else on the command line leads to one.
pub parse_args_fd :
    (argv : List Text)
    → (parse_args argv).fd ≢ negsuc 0
    → (before : List Text) × (arg : Text) × (after : List Text) × (number : Text) × (argv
        ≡ before ++ (arg ∷ after))
      × (cut_prefix seqpacket arg ≡ some number)
      × (atoi number ≡ some (parse_args argv).fd)
unfolding parse_args Given FdFrom
parse_args_fd argv there =
    let from = parse_args_from-fd false argv (record { descr = []; fd = negsuc 0; vnl = [] }) in
    elim from [ inl same ↦ absurd (there same) | inr given ↦ given ]
