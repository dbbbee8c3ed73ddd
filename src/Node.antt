-- ===== src/Node.antt =====
-- src/node.rs: `Node` and `NodeBuilder`.
pub mod Builder
pub mod Engine
pub mod Start
use p2p_pbft.Base.{
  ℕ, suc, List, [], ◌∷◌, ◌++◌, Bool, true, false, Option, none, some, length, Bytes, wrap64,
}
use p2p_pbft.Base.Flow.{
  Outcome, ok, err, panic, Flow, Step, next, stop, ◌>>=◌, ◌>>◌, pure, gets, modify, panic_if,
  unwrap, call,
}
use p2p_pbft.External.{External}
use p2p_pbft.Message.{
  NodeId, NetworkMessage, Request, consensus, ping, pong, handshake, handshake_ack,
}
use p2p_pbft.Crypto.{KeyPair, generate, from_seed, public_key_hex}
use p2p_pbft.Network.{NetworkError}
use p2p_pbft.Network.Frame.{Bincode}
use p2p_pbft.Network.Peers.{Network, PeerInfo, network_new, start_listener, peer_count, get_peers}
use p2p_pbft.Network.Connect.{connect_to_peer}
use p2p_pbft.Pbft.Config.{PbftError, config_new}
use p2p_pbft.Pbft.State.{PbftConsensus, state_new, consensus_new}
use p2p_pbft.Pbft.Normal.{handle_request}
use p2p_pbft.Pbft.Process.{process_message}
use p2p_pbft.Host.{Host, Loop, dispatch, logged, send_pong, run_loop}

-- The receivers of the structure are the other ends of the channels that the engine has; they stand
-- with the engine, as the traces of what it sent.
pub record Node (x : External) : Type 0 where
  pub node_id : NodeId
  pub network : Network
  pub consensus : Option (PbftConsensus x)

-- `Box<dyn Error>`
pub data NodeError : Type 0 where
  of_network : NetworkError → NodeError
  of_pbft : PbftError → NodeError

-- What the loop of `start` and the task of outgoing messages do, in the order in which they do it. A
-- message comes with the time and the peer.
pub data NodeEvent : Type 0 where
  arrived : ℕ → NodeId → NetworkMessage → NodeEvent
  outgoing_turn : NodeEvent

-- `Request::new` at a time in milliseconds since 1970.
unfoldable pub request_new : ℕ → Bytes → Bytes → Request
request_new millis client_id operation = record {
  client_id = client_id;
  timestamp = wrap64 millis;
  operation = operation;
}

module _ (x : External) where
  key_pair : x.SigningKey → Option Bytes → KeyPair x
  key_pair drawn none = generate x drawn
  key_pair drawn (some seed) = from_seed x seed

  -- `Node::new` at a time, on the key that `generate` would draw.
  unfoldable pub node_new : ℕ → x.SigningKey → ℕ → Option Bytes → Node x
  unfolding key_pair
  node_new now drawn listen_port seed =
      let keypair = key_pair drawn seed in
      let node_id = public_key_hex x keypair in
      record {
        node_id = node_id;
        network = network_new node_id listen_port;
        consensus =
            some (consensus_new x (state_new x now node_id keypair (node_id ∷ []) (config_new 1)));
      }

  unfoldable pub initialize_consensus : ℕ → List NodeId → KeyPair x → Node x → Node x
  initialize_consensus now replicas keypair node =
      let config = config_new (length replicas) in
      record node {
        consensus = some (consensus_new x (state_new x now node.node_id keypair replicas config));
      }

  unfoldable pub id : Node x → NodeId
  id node = node.node_id

  -- One turn of the loop of `start`: a ping is answered to the node that it names.
  unfoldable pub node_message : NodeId → ℕ → NetworkMessage → Loop x
  node_message node_id now (consensus m) = logged x (process_message x now m)
  node_message node_id now (ping from timestamp) = send_pong x from node_id timestamp
  node_message node_id now (pong _ _) = pure tt
  node_message node_id now (handshake _ _) = pure tt
  node_message node_id now (handshake_ack _ _) = pure tt

  unfoldable pub node_turn : NodeId → NodeEvent → Loop x
  node_turn node_id (arrived now peer_id msg) = node_message node_id now msg
  node_turn node_id outgoing_turn = dispatch x

  -- The loop, over the messages that come from the channel.
  unfoldable pub node_loop : NodeId → List NodeEvent → Loop x
  node_loop node_id = run_loop x (node_turn node_id)

  pub loop_at : Node x → Step (Host x) PbftError (Unit {0}) → Step (Node x) NodeError (Host x)
  loop_at node (next _ h) = next h (record node { network = h.network })
  loop_at node (stop ok h) = next h (record node { network = h.network })
  loop_at node (stop (err e) h) = stop (err (of_pbft e)) (record node { network = h.network })
  loop_at node (stop panic h) = stop panic (record node { network = h.network })

  pub connected : {A : Type 0} → Node x → Step Network NetworkError A → Step (Node x) NodeError A
  connected node (next a n) = next a (record node { network = n })
  connected node (stop ok n) = stop ok (record node { network = n })
  connected node (stop (err e) n) = stop (err (of_network e)) (record node { network = n })
  connected node (stop panic n) = stop panic (record node { network = n })

  -- `Node::start`, until the loop has handled these messages: where it stands then, with the engine, which
  -- has been taken out of the structure. It never returns from the loop, as the structure keeps a sender of
  -- the channel that the loop reads; its future can only be dropped, and with it the engine. `binds` says
  -- that no other program has the port. The tasks on committed requests and on the clock only log.
  unfoldable pub start : Bool → List NodeEvent → Flow (Node x) NodeError (Host x)
  unfolding loop_at connected
  start binds events = do
    λ node. connected node (start_listener binds node.network)
    taken ← gets (λ node. node.network.taken)
    panic_if taken
    modify (λ node. record node { network = record node.network { taken = true } })
    engine ← gets (λ node. node.consensus)
    w ← unwrap engine
    modify (λ node. record node { consensus = none })
    λ node. loop_at node (
        node_loop node.node_id events
          (record { consensus = w; network = node.network; dispatched = 0 }))

  pub submitted_to :
      Option (PbftConsensus x) → ℕ → Request → Node x → Step (Node x) NodeError (Unit {0})
  submitted_to none now r node = next tt node
  submitted_to (some w) now r node = elim (handle_request x now r w) [
    | next a u ↦ next tt (record node { consensus = some u })
    | stop ok u ↦ next tt (record node { consensus = some u })
    | stop (err e) u ↦ stop (err (of_pbft e)) (record node { consensus = some u })
    | stop panic u ↦ stop panic (record node { consensus = some u })
  ]

  unfoldable pub submit_request : ℕ → ℕ → Bytes → Flow (Node x) NodeError (Unit {0})
  unfolding submitted_to
  submit_request now millis operation node =
      submitted_to node.consensus now (request_new millis node.node_id operation) node

  -- `Node::connect`: the peer, and the stream that its reader task goes on with.
  unfoldable pub connect :
      Bincode → (Bytes → Option Bytes) → Bytes → Flow (Node x) NodeError (NodeId × Bytes)
  unfolding connected
  connect b dial address node = connected node (connect_to_peer b dial address node.network)

  unfoldable pub node_peer_count : Node x → ℕ
  node_peer_count node = peer_count node.network

  unfoldable pub node_peers : Node x → List PeerInfo
  node_peers node = get_peers node.network
