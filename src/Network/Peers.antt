-- ===== src/Network/Peers.antt =====
-- src/network.rs: `PeerInfo`, `PeerHandle`, the table of peers of `Network` and what is sent to them.
-- A channel to a writer task is what was put into it, the newest first, and whether the task has
-- dropped its end. A send does not block: a full channel only makes the sender wait.
use p2p_pbft.Base.{
  ℕ, List, [], ◌∷◌, Bool, true, false, not, ◌&&◌, map, length, Bytes, bytes_discrete,
}
use p2p_pbft.Base.Map.{lookup, insert, values}
use p2p_pbft.Base.Flow.{Flow, ◌>>=◌, ◌>>◌, gets, modify, ok_or, guard}
use p2p_pbft.Message.{NodeId, NetworkMessage}
use p2p_pbft.Network.{NetworkError, io, peer_not_found, channel_closed}

pub record PeerInfo : Type 0 where
  pub node_id : NodeId
  pub address : Bytes
  pub connected : Bool

pub record PeerHandle : Type 0 where
  pub info : PeerInfo
  pub sent : List NetworkMessage
  pub is_open : Bool

-- `listening` says that a listener of this node holds the port. `message_tx` is what the reader tasks have put into the channel of messages, the newest first;
-- `taken` says that its receiver is no longer in the structure. `dialing` holds the addresses for which
-- a task that connects was spawned.
pub record Network : Type 0 where
  pub node_id : NodeId
  pub listen_port : ℕ
  pub peers : List (NodeId × PeerHandle)
  pub message_tx : List (NodeId × NetworkMessage)
  pub taken : Bool
  pub dialing : List Bytes
  pub listening : Bool

-- Code on the network.
abbrev pub Networking : Type 0 → Type 0
Networking = Flow Network NetworkError

unfoldable pub network_new : NodeId → ℕ → Network
network_new node_id listen_port = record {
  node_id = node_id;
  listen_port = listen_port;
  peers = [];
  message_tx = [];
  taken = false;
  dialing = [];
  listening = false;
}

-- Whether the receiver is handed out, and the structure without it.
unfoldable pub take_message_receiver : Network → Bool × Network
take_message_receiver n = (not n.taken, record n { taken = true })

unfoldable pub get_peers : Network → List PeerInfo
get_peers n = map (λ p. p.info) (values n.peers)

unfoldable pub peer_count : Network → ℕ
peer_count n = length n.peers

-- `bind`, which fails where the port is not free: another program has it, or an earlier listener of this
-- node. The task that accepts connections is spawned and `start_listener` returns; what that task does
-- with a connection is `handle_incoming_connection`.
unfoldable pub start_listener : Bool → Networking (Unit {0})
start_listener binds = do
  held ← gets (λ n. n.listening)
  guard (binds && not held) io
  modify (λ n. record n { listening = true })

-- `PeerHandle::send`: the handle after it; the send fails where the handle is not open.
unfoldable pub push : NetworkMessage → PeerHandle → PeerHandle
push msg p = elim p.is_open [ true ↦ record p { sent = msg ∷ p.sent } | false ↦ p ]

unfoldable pub send_to_peer : NodeId → NetworkMessage → Networking (Unit {0})
send_to_peer peer_id msg = do
  peers ← gets (λ n. n.peers)
  peer ← ok_or (lookup bytes_discrete peer_id peers) (peer_not_found peer_id)
  modify (λ n. record n { peers = insert bytes_discrete peer_id (push msg peer) n.peers })
  guard peer.is_open channel_closed

-- A failed send is logged and the loop goes on with the next peer.
unfoldable pub broadcast : NetworkMessage → Network → Network
broadcast msg n = record n { peers = map (λ e. (e.0, push msg e.1)) n.peers }
