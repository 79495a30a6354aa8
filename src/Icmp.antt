-- ===== src/Icmp.antt =====
-- vdeplug-go/internal/nat/icmp.go: the relay of the guest's public pings.
pub mod Checksum
pub mod Relay
pub use Checksum.*
