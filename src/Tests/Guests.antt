-- ===== src/Tests/Guests.antt =====
-- The stand-in for a guest and the link at concrete inputs.
use uml_kernel_build.Common.{
  ℕ, ◌≡◌, refl, true, none, some, List, [], ◌∷◌, ◌++◌, arith, nat_eq, bytes_eq, replicate, Bytes,
  be16,
}
use uml_kernel_build.Guest.{checksum, serve}
use uml_kernel_build.Guest.Pinger.{is_pong}
use uml_kernel_build.Guest.Echo
use uml_kernel_build.Guest.Echo.{ping_frame}
use uml_kernel_build.Guest.Resolve
use uml_kernel_build.Link.{new, protocol_of, inject, inject_all}

abbrev mac_a : Bytes
mac_a = 2 ∷ 0 ∷ 0 ∷ 0 ∷ 0 ∷ 1 ∷ []

abbrev mac_b : Bytes
mac_b = 2 ∷ 0 ∷ 0 ∷ 0 ∷ 0 ∷ 2 ∷ []

abbrev ip_a : Bytes
ip_a = 10 ∷ 0 ∷ 2 ∷ 42 ∷ []

abbrev ip_b : Bytes
ip_b = 10 ∷ 0 ∷ 2 ∷ 16 ∷ []

abbrev head : Bytes
head = 0x45 ∷ 0 ∷ 0 ∷ 33 ∷ 0 ∷ 0 ∷ 0 ∷ 0 ∷ 64 ∷ 1 ∷ []

-- Identifier 1, sequence number 9 and five bytes.
abbrev message : Bytes
message = 0 ∷ 1 ∷ 0 ∷ 9 ∷ 97 ∷ 98 ∷ 99 ∷ 100 ∷ 101 ∷ []

serve_ping_example :
    (s : ℕ) × (t : ℕ) × (serve mac_b ip_b (ping_frame mac_b mac_a head 0 ip_a ip_b 8 0 0 message)
      ≡ some (ping_frame mac_a mac_b head s ip_b ip_a 0 0 t message ∷ []))
    × (checksum (head ++ (be16 s ++ (ip_b ++ ip_a))) ≡ some 0)
    × (checksum (0 ∷ 0 ∷ (be16 t ++ message)) ≡ some 0)
    × (is_pong ip_b (ping_frame mac_a mac_b head s ip_b ip_a 0 0 t message) ≡ some true)
serve_ping_example =
    Echo.serve_ping mac_b ip_b mac_b mac_a head ip_a ip_b message 0 0 0 refl refl refl refl refl
      refl refl (omega arith) (omega arith) (ground arith) (ground arith) (ground arith)

-- A header of 60 bytes that the frame does not have makes the asker index out of range.
wild_header :
    is_pong ip_b (mac_a ++ (mac_b ++ (8 ∷ 0 ∷ 0x4f ∷ (replicate 11 0 ++ (ip_b ++ replicate 12 0)))))
    ≡ none
unfolding is_pong
wild_header = refl

quiet : Resolve.Noise 100 ip_b ((1, none) ∷ [])
quiet = ((omega arith, λ f e. absurd (cc)), tt)

abbrev frames : List Bytes
frames =
    (1 ∷ 2 ∷ []) ∷ (mac_b ++ (mac_a ++ (8 ∷ 0 ∷ 7 ∷ []))) ∷ (mac_b ++ (mac_a ++ (9 ∷ 9 ∷ []))) ∷ []

got_one :
    (inject_all (λ f. true) frames (new mac_b)).0
    ≡ (0x0800, mac_b ++ (mac_a ++ (8 ∷ 0 ∷ 7 ∷ []))) ∷ []
unfolding inject_all inject protocol_of
got_one = refl
