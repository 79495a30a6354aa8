-- ===== src/Dhcp.antt =====
-- vdeplug-go/internal/dhcp/dhcp.go.
pub mod Pool
pub mod Subnet
pub mod Server
