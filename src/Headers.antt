-- ===== src/Headers.antt =====
-- The header accessors and encoders of gVisor's package `header`, as far as internal/nat/icmp.go and
-- internal/dhcp/dhcp.go of vdeplug-go use them: a parameter of both.
use uml_kernel_build.Common.{ℕ, Option, Bytes}

-- `protocol` to `ip_payload` read a packet from its IP header on, `udp_port` is the destination port of
-- a UDP datagram; `none` is a slice out of range. `ip_header` is `Encode` with `SetChecksum` (total
-- length, TTL, protocol, source, destination), `udp_header` is `Encode` with the checksum over the
-- pseudo header (ports, source, destination, payload), `ethernet_header` is `Encode` (source,
-- destination, type).
pub record Headers : Type 0 where
  pub protocol : Bytes → ℕ
  pub header_length : Bytes → ℕ
  pub total_length : Bytes → ℕ
  pub destination : Bytes → Bytes
  pub ip_payload : Bytes → Option Bytes
  pub udp_port : Bytes → ℕ
  pub ip_header : ℕ → ℕ → ℕ → Bytes → Bytes → Bytes
  pub udp_header : ℕ → ℕ → Bytes → Bytes → Bytes → Bytes
  pub ethernet_header : Bytes → Bytes → ℕ → Bytes
