-- ===== src/Tests.antt =====
-- Runs at concrete inputs, and the theorems at inputs that meet their hypotheses.
mod Pools
mod Frames
mod Wires
mod Seats
mod Relays
mod Servers
mod Settings
mod Tunnels
mod Histories
mod Guests
mod Networks
mod Hubs
mod Sockets
mod Instances
mod Setups
