-- ===== src/Nat/Splice.antt =====
-- The two copies of one TCP flow: `pump` and the rest of `tcpHandler` of vdeplug-go/internal/nat/nat.go,
-- and `pipe` with the rest of `serveTCP` of vdeplug-go/internal/portfwd/portfwd.go, which copy alike.
use uml_kernel_build.Common.{
  ℕ, ◌≡◌, refl, ap, Bool, true, false, List, [], ◌∷◌, ◌++◌, append-nil, append_assoc, if◌then◌else◌,
  nat_eq, bytes_eq, All, Bytes,
}
use uml_kernel_build.Nat.{Addresses, Dials, Nat, Socket, refused, on_host, on_tunnel, dial_tcp}

-- What the two connections deliver. `ends` is the end of what one side sends, or its error.
pub data Input : Type 0 where
  from_guest from_host : (bytes : Bytes) → Input
  guest_ends host_ends : Input

pub record Spliced : Type 0 where
  pub to_host : Bytes
  pub to_guest : Bytes
  pub connected : Bool

-- The copy that ends first closes both connections.
unfoldable pub splice : List Input → Spliced → Spliced
splice [] x = x
splice (from_guest b ∷ xs) x = splice xs (record x { to_host = x.to_host ++ b })
splice (from_host b ∷ xs) x = splice xs (record x { to_guest = x.to_guest ++ b })
splice (guest_ends ∷ xs) x = record x { connected = false }
splice (host_ends ∷ xs) x = record x { connected = false }

unfoldable pub fresh : Spliced
fresh = record { to_host = []; to_guest = []; connected = true }

-- The guest's connection is reset, the host's is closed at once, or the two are joined.
pub data TcpFlow : Type 0 where
  reset abandoned : TcpFlow
  joined : (sock : Socket) (x : Spliced) → TcpFlow

-- `endpoint` is whether `CreateEndpoint` succeeds.
unfoldable pub start_flow : Socket → Bool → List Input → TcpFlow
unfolding splice fresh
start_flow refused endpoint xs = reset
start_flow (on_host server port) endpoint xs =
    if endpoint then joined (on_host server port) (splice xs fresh) else abandoned
start_flow (on_tunnel server port) endpoint xs =
    if endpoint then joined (on_tunnel server port) (splice xs fresh) else abandoned

unfoldable pub tcp_handler : Addresses → Dials → Nat → Bytes → ℕ → Bool → List Input → TcpFlow
unfolding start_flow dial_tcp
tcp_handler a d n dst port endpoint xs = start_flow (dial_tcp a d n dst port) endpoint xs

-- One connection of `serveTCP`; here the host's side is the one accepted, and `dialled` is whether the
-- netstack reaches the guest.
unfoldable pub serve_connection : Bool → List Input → Spliced
unfolding splice fresh
serve_connection dialled xs =
    if dialled then splice xs fresh else record fresh { connected = false }

unfoldable pub guest_bytes : List Input → Bytes
guest_bytes [] = []
guest_bytes (from_guest b ∷ xs) = b ++ guest_bytes xs
guest_bytes (_ ∷ xs) = guest_bytes xs

unfoldable pub host_bytes : List Input → Bytes
host_bytes [] = []
host_bytes (from_host b ∷ xs) = b ++ host_bytes xs
host_bytes (_ ∷ xs) = host_bytes xs

-- Neither side has ended.
abbrev pub is_data : Input → Bool
is_data (from_guest _) = true
is_data (from_host _) = true
is_data _ = false

splice-data :
    (before after : List Input) (x : Spliced)
    → All (λ e. is_data e ≡ true) before
    → splice (before ++ after) x
      ≡ splice after (record x {
        to_host = x.to_host ++ guest_bytes before;
        to_guest = x.to_guest ++ host_bytes before;
      })
unfolding splice guest_bytes host_bytes
splice-data [] after x all = rw (append-nil x.to_host, append-nil x.to_guest) refl
splice-data (from_guest b ∷ before) after x (_, all) =
    rw (← append_assoc x.to_host b (guest_bytes before))
      (splice-data before after (record x { to_host = x.to_host ++ b }) all)
splice-data (from_host b ∷ before) after x (_, all) =
    rw (← append_assoc x.to_guest b (host_bytes before))
      (splice-data before after (record x { to_guest = x.to_guest ++ b }) all)
splice-data (guest_ends ∷ before) after x (c, all) = cc
splice-data (host_ends ∷ before) after x (c, all) = cc

-- What becomes of a flow that gets this socket, when one side ends after these bytes.
pub cut_flow : Socket → Bool → Bytes → Bytes → TcpFlow
cut_flow refused endpoint sent received = reset
cut_flow sock false sent received = abandoned
cut_flow sock true sent received =
    joined sock (record { to_host = sent; to_guest = received; connected = false })

splice_end :
    (before after : List Input) (x : Input)
    → All (λ e. is_data e ≡ true) before
    → is_data x ≡ false
    → splice (before ++ (x ∷ after)) fresh
      ≡ record { to_host = guest_bytes before; to_guest = host_bytes before; connected = false }
unfolding splice fresh
splice_end before after guest_ends all over = splice-data before (guest_ends ∷ after) fresh all
splice_end before after host_ends all over = splice-data before (host_ends ∷ after) fresh all
splice_end before after (from_guest b) all over = cc
splice_end before after (from_host b) all over = cc

start_flow_cut :
    (sock : Socket) (endpoint : Bool) (before after : List Input) (x : Input)
    → All (λ e. is_data e ≡ true) before
    → is_data x ≡ false
    → start_flow sock endpoint (before ++ (x ∷ after))
      ≡ cut_flow sock endpoint (guest_bytes before) (host_bytes before)
unfolding start_flow cut_flow
start_flow_cut refused endpoint before after x all over = refl
start_flow_cut (on_host server port) false before after x all over = refl
start_flow_cut (on_tunnel server port) false before after x all over = refl
start_flow_cut (on_host server port) true before after x all over =
    ap (joined (on_host server port)) (splice_end before after x all over)
start_flow_cut (on_tunnel server port) true before after x all over =
    ap (joined (on_tunnel server port)) (splice_end before after x all over)

-- A TCP flow of the guest, in any interleaving of the two directions: without a socket it is reset, and
-- without an endpoint nothing is copied. Otherwise each direction carries its bytes in order until
-- one side has sent all it has to send, also if that side still waits for the answer: what the other
-- sends after that is not copied, and both connections are closed.
pub tcp_handler-cut_flow :
    (a : Addresses) (d : Dials) (n : Nat) (dst : Bytes) (port : ℕ) (endpoint : Bool)
    (before after : List Input) (x : Input)
    → All (λ e. is_data e ≡ true) before
    → is_data x ≡ false
    → tcp_handler a d n dst port endpoint (before ++ (x ∷ after))
      ≡ cut_flow (dial_tcp a d n dst port) endpoint (guest_bytes before) (host_bytes before)
unfolding tcp_handler
tcp_handler-cut_flow a d n dst port endpoint before after x all over =
    start_flow_cut (dial_tcp a d n dst port) endpoint before after x all over
