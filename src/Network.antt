-- ===== src/Network.antt =====
-- src/network.rs: errors and the connection of two peers.
pub mod Frame
pub mod RoundTrip
pub mod Sizes
pub mod Reading
pub mod Peers
pub mod Broadcast
pub mod Connect
pub mod Table
pub mod Meeting
pub mod Channel
use p2p_pbft.Base.{Bytes}
use p2p_pbft.Message.{NodeId}

-- The errors of the operating system and of bincode are told apart from the others only.
pub data NetworkError : Type 0 where
  io serialization : NetworkError
  connection_failed : Bytes → NetworkError
  peer_not_found : NodeId → NetworkError
  channel_closed : NetworkError
