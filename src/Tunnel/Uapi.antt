-- ===== src/Tunnel/Uapi.antt =====
-- The device's configuration, read back line by line.
use uml_kernel_build.Common.{
  ℕ, zero, suc, ◌+◌, ◌-◌, ◌*◌, ◌/◌, ◌%◌, ◌^◌, ◌≤◌, ◌<◌, ◌≡◌, ◌≢◌, inl, inr, refl, sym, ap, ◌∙◌,
  Bool, true, false, not, ◌&&◌, Option, none, some, List, [], ◌∷◌, ◌++◌, map, append-nil,
  append_assoc, arith, ltb, ◌==◌, if◌then◌else◌, Bool-cases, nat_eq, bytes_eq, length, All,
  length-append, All-append, Bytes, codes, IsByte, IsU16,
}
use native.Mathlib.Nat.{pow-suc}
use uml_kernel_build.Config.Strings.{Text, split, split_at, digits, parse_uint16}
use uml_kernel_build.Wireguard.{Conf}
use uml_kernel_build.Tunnel.{hex, decimal, uapi_line, allowed_lines, device_config}

abbrev pub Lacks : ℕ → Text → Type 0
Lacks c s = All (λ (x : ℕ). x ≢ c) s

lacks : ℕ → Text → Bool
lacks c [] = true
lacks c (x ∷ s) = not (x == c) && lacks c s

lacks-Lacks : (c : ℕ) (s : Text) → lacks c s ≡ true → Lacks c s
unfolding lacks
lacks-Lacks c [] h = tt
lacks-Lacks c (x ∷ s) h = (ground arith, lacks-Lacks c s (ground arith))

split-line : (c : ℕ) (a b : Text) → Lacks c a → split c (a ++ (c ∷ b)) ≡ a ∷ split c b
unfolding split
split-line c [] b h = ground arith
split-line c (x ∷ a) b (here, more) = ground (arith, split-line c a b more)

split_at-line : (c : ℕ) (k v : Text) → Lacks c k → split_at c (k ++ (c ∷ v)) ≡ some (k, v)
unfolding split_at
split_at-line c [] v h = ground arith
split_at-line c (x ∷ k) v (here, more) = ground (arith, split_at-line c k v more)

-- The lines of a configuration, each at its first `=`; none for one without.
unfoldable pub fields : Text → List (Option (Text × Text))
fields text = map (λ line. split_at 61 line) (split 10 text)

Lacks-uapi : (key value : Text) → Lacks 10 key → Lacks 10 value → Lacks 10 (key ++ (61 ∷ value))
Lacks-uapi key value hk hv = All-append (λ (x : ℕ). x ≢ 10) key (61 ∷ value) hk ((omega arith), hv)

fields-uapi_line :
    (key value rest : Text)
    → lacks 10 key && lacks 61 key ≡ true
    → Lacks 10 value
    → fields (uapi_line key value ++ rest) ≡ some (key, value) ∷ fields rest
unfolding fields uapi_line
fields-uapi_line key value rest plain hv =
    let hk : Lacks 10 key = lacks-Lacks 10 key (ground arith) in
    let he : Lacks 61 key = lacks-Lacks 61 key (ground arith) in
    let flat : (key ++ (61 ∷ (value ++ (10 ∷ [])))) ++ rest ≡ (key ++ (61 ∷ value)) ++ (10 ∷ rest) =
      append_assoc key (61 ∷ (value ++ (10 ∷ []))) rest
      ∙ ap (λ v. key ++ (61 ∷ v)) (append_assoc value (10 ∷ []) rest)
      ∙ sym (append_assoc key (61 ∷ value) (10 ∷ rest)) in
    rw flat (
      rw (split-line 10 (key ++ (61 ∷ value)) rest (Lacks-uapi key value hk hv))
        (rw (split_at-line 61 key value he) refl))

hex-Lacks : (b : Bytes) → Lacks 10 (hex b)
unfolding hex
hex-Lacks [] = tt
hex-Lacks (x ∷ b) = (ground arith, (ground arith, hex-Lacks b))

decimal-Lacks : (places n : ℕ) → Lacks 10 (decimal places n)
unfolding decimal
decimal-Lacks zero n = tt
decimal-Lacks (suc places) n = elim (Bool-cases (ltb n 10)) [
  | inl low ↦ rw (low, decimal) (omega arith, tt)
  | inr high ↦
      rw (high, decimal)
        (All-append (λ (x : ℕ). x ≢ 10) (decimal places (n / 10)) _ (decimal-Lacks places (n / 10))
          (omega arith, tt))
]

digits-append :
    (acc : ℕ) (a b : Text) (m : ℕ) → digits acc a ≡ some m → digits acc (a ++ b) ≡ digits m b
unfolding digits
digits-append acc [] b m h = ground arith
digits-append acc (x ∷ a) b m h = ground (arith, digits-append (acc * 10 + (x - 48)) a b m)

digits-decimal : (places n : ℕ) → n < 10 ^ places → digits 0 (decimal places n) ≡ some n
unfolding digits decimal
digits-decimal zero n h = let empty : 0 ≡ n = omega arith in ap some empty
digits-decimal (suc places) n h = elim (Bool-cases (ltb n 10)) [
  | inl low ↦ rw (low, decimal) (ground arith)
  | inr high ↦
      let more : 10 ≤ n = ground arith in
      let less : n / 10 < 10 ^ places =
        let wide : n < 10 ^ places * 10 = rw (pow-suc 10 places) at h in omega arith in
      rw (high, decimal)
        (digits-append 0 (decimal places (n / 10)) _ (n / 10) (digits-decimal places (n / 10) less)
          ∙ ground arith)
]

unhex_digit : ℕ → ℕ
unhex_digit c = if ltb c 58 then c - 48 else c - 87

pub unhex : Text → Bytes
unhex (a ∷ b ∷ s) = (unhex_digit a * 16 + unhex_digit b) ∷ unhex s
unhex _ = []

unhex-hex : (b : Bytes) → All IsByte b → unhex (hex b) ≡ b
unfolding unhex hex unhex_digit
unhex-hex [] h = refl
unhex-hex (x ∷ b) (here, more) = ground (arith, unhex-hex b more)

decimal-long : (places n : ℕ) → 0 < length (decimal (suc places) n)
unfolding decimal
decimal-long places n = ground (arith, length-append (decimal places (n / 10)) ((48 + n % 10) ∷ []))

parse_uint16-decimal : (n : ℕ) → n < 65536 → parse_uint16 (decimal 5 n) ≡ some n
unfolding parse_uint16
parse_uint16-decimal n small =
    let long : (length (decimal 5 n) == 0) ≡ false = ground (arith, decimal-long 4 n) in
    let within : ltb n 65536 ≡ true = ground arith in
    rw (long, parse_uint16) (rw (digits-decimal 5 n (omega arith)) (rw within refl))

fields-allowed :
    (show : Bytes × ℕ → Text) (cidrs : List (Bytes × ℕ)) (rest : Text)
    → All (λ (c : Bytes × ℕ). Lacks 10 (show c)) cidrs
    → fields (allowed_lines show cidrs ++ rest)
      ≡ map (λ c. some (codes "allowed_ip", show c)) cidrs ++ fields rest
unfolding allowed_lines lacks
fields-allowed show [] rest h = refl
fields-allowed show (c ∷ cidrs) rest (here, more) =
    ap fields
      (append_assoc (uapi_line (codes "allowed_ip") (show c)) (allowed_lines show cidrs) rest)
    ∙ fields-uapi_line (codes "allowed_ip") (show c) (allowed_lines show cidrs ++ rest) refl here
    ∙ ap (◌∷◌ (some (codes "allowed_ip", show c))) (fields-allowed show cidrs rest more)

fields-optional :
    (b : Bool) (key value rest : Text)
    → lacks 10 key && lacks 61 key ≡ true
    → Lacks 10 value
    → fields ((if b then [] else uapi_line key value) ++ rest)
      ≡ (if b then [] else some (key, value) ∷ []) ++ fields rest
fields-optional true key value rest plain hv = refl
fields-optional false key value rest plain hv = fields-uapi_line key value rest plain hv

-- The fields of a configuration, with the empty line at the end.
unfoldable pub expected : (Bytes × ℕ → Text) → Conf → Text → List (Option (Text × Text))
expected show conf endpoint =
    some (codes "private_key", hex conf.private_key)
    ∷ some (codes "public_key", hex conf.peer_key)
    ∷ ((if length conf.preshared_key == 0
          then []
          else some (codes "preshared_key", hex conf.preshared_key) ∷ [])
        ++ (some (codes "endpoint", endpoint)
            ∷ (map (λ c. some (codes "allowed_ip", show c)) conf.allowed_ips
                ++ ((if conf.keepalive == 0
                      then []
                      else some (codes "persistent_keepalive_interval", decimal 5 conf.keepalive)
                        ∷ [])
                    ++ (none ∷ [])))))

interval_lem :
    (keepalive : ℕ)
    → fields (
        if keepalive == 0
        then []
        else uapi_line (codes "persistent_keepalive_interval") (decimal 5 keepalive))
      ≡ (if keepalive == 0
          then []
          else some (codes "persistent_keepalive_interval", decimal 5 keepalive) ∷ [])
        ++ (none ∷ [])
unfolding lacks split split_at
interval_lem keepalive =
    let key = codes "persistent_keepalive_interval" in
    let line : Text = if keepalive == 0 then [] else uapi_line key (decimal 5 keepalive) in
    let last : fields [] ≡ none ∷ [] = unfold fields in refl in
    ap fields (sym (append-nil line))
    ∙ fields-optional (keepalive == 0) key (decimal 5 keepalive) [] refl (decimal-Lacks 5 keepalive)
    ∙ ap (λ r. (if keepalive == 0 then [] else some (key, decimal 5 keepalive) ∷ []) ++ r) last

device_config_lem :
    (show : Bytes × ℕ → Text) (conf : Conf) (endpoint : Text)
    → Lacks 10 endpoint
    → All (λ (c : Bytes × ℕ). Lacks 10 (show c)) conf.allowed_ips
    → fields (device_config show conf endpoint) ≡ expected show conf endpoint
unfolding device_config expected lacks
device_config_lem show conf endpoint le la =
    let pub_key = codes "public_key" in
    let psk : List (Option (Text × Text)) =
      if length conf.preshared_key == 0
      then []
      else some (codes "preshared_key", hex conf.preshared_key) ∷ [] in
    let nets : List (Option (Text × Text)) =
      map (λ c. some (codes "allowed_ip", show c)) conf.allowed_ips in
    fields-uapi_line (codes "private_key") (hex conf.private_key) _ refl
      (hex-Lacks conf.private_key)
    ∙ ap (◌∷◌ (some (codes "private_key", hex conf.private_key))) (
        fields-uapi_line pub_key (hex conf.peer_key) _ refl (hex-Lacks conf.peer_key)
        ∙ ap (◌∷◌ (some (pub_key, hex conf.peer_key))) (
            fields-optional (length conf.preshared_key == 0) (codes "preshared_key")
              (hex conf.preshared_key) _ refl (hex-Lacks conf.preshared_key)
            ∙ ap (λ r. psk ++ r)
                (fields-uapi_line (codes "endpoint") endpoint _ refl le
                  ∙ ap (◌∷◌ (some (codes "endpoint", endpoint))) (
                      fields-allowed show conf.allowed_ips _ la
                      ∙ ap (λ r. nets ++ r) (interval_lem conf.keepalive)))))

-- Read back line by line, at the first `=` of each, the configuration has the two keys, the preshared key
-- if there is one, the endpoint, each network and the interval if it is not 0, in this order, and no
-- other line but the empty one at the end, if neither the endpoint nor a network's text has a line
-- break. The texts of the keys and of the interval read back as the keys and the interval.
pub device_config-fields :
    (show : Bytes × ℕ → Text) (conf : Conf) (endpoint : Text)
    → Lacks 10 endpoint
    → All (λ (c : Bytes × ℕ). Lacks 10 (show c)) conf.allowed_ips
    → All IsByte conf.private_key
    → All IsByte conf.peer_key
    → All IsByte conf.preshared_key
    → IsU16 conf.keepalive
    → (fields (device_config show conf endpoint) ≡ expected show conf endpoint)
      × (unhex (hex conf.private_key) ≡ conf.private_key)
      × (unhex (hex conf.peer_key) ≡ conf.peer_key)
      × (unhex (hex conf.preshared_key) ≡ conf.preshared_key)
      × (parse_uint16 (decimal 5 conf.keepalive) ≡ some conf.keepalive)
device_config-fields show conf endpoint le la bk bp bs small = (
  device_config_lem show conf endpoint le la,
  unhex-hex conf.private_key bk,
  unhex-hex conf.peer_key bp,
  unhex-hex conf.preshared_key bs,
  parse_uint16-decimal conf.keepalive small,
)
