-- ===== src/Tunnel/Bridge.antt =====
-- The bridge between the netstack and the device, of vdeplug-go/internal/wgup/tunnel.go.
use uml_kernel_build.Common.{
  ℕ, ◌-◌, ◌/◌, Option, none, some, List, [], ◌∷◌, ltb, ◌==◌, if◌then◌else◌, nat_eq, bytes_eq,
  length, drop, Bytes, byte_at,
}

-- `bridge.Write`: what the stack is given, with its protocol; `none` is a slice out of range. The number
-- returned is that of the packets.
unfoldable pub bridge_write : ℕ → List Bytes → Option (List (ℕ × Bytes))
bridge_write offset [] = some []
bridge_write offset (buf ∷ bufs) =
    let p = drop offset buf in
    let version = byte_at p 0 / 16 in
    let rest = bridge_write offset bufs in
    if ltb (length buf) offset then none else elim rest [
      | none ↦ none
      | some more ↦
          if length p == 0
          then some more
          else if version == 4
          then some ((0x0800, p) ∷ more)
          else if version == 6
          then some ((0x86DD, p) ∷ more)
          else some more
    ]

-- `bridge.Read` into one buffer of `size` bytes from `offset` on: the bytes written there, `none` is the
-- error of a short buffer.
unfoldable pub bridge_read : ℕ → ℕ → Bytes → Option Bytes
bridge_read size offset view = if ltb (size - offset) (length view) then none else some view
