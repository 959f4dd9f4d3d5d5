-- ===== src/Gspp.antt =====
-- gspp-net/gspp: connections, their packets and their handlers.
pub mod Componentable
pub mod StreamClient
pub mod DatagramConnection
pub mod PacketHandlers
pub mod DualConnection
