-- ===== src/Network/Connect.antt =====
-- src/network.rs: the handshakes, `connect_to_peer` of `Network` and of `NetworkHandle`, and
-- `handle_incoming_connection`. TCP is a parameter: `dial` gives the bytes that the other side sends on
-- the connection to an address, or nothing where there is no connection. Logging is at the level that
-- src/main.rs sets, so that the arguments of `info!` are computed.
use p2p_pbft.Base.{
  ℕ, suc, ltb, leb, ◌==◌, ◌&&◌, ◌||◌, List, [], ◌∷◌, ◌++◌, Bool, true, false, if◌then◌else◌, Option,
  none, some, map, length, get_elem?, Bytes, same, bytes_discrete,
}
use p2p_pbft.Base.Map.{lookup, insert, remove, values, contains_key}
use p2p_pbft.Base.Flow.{Outcome, ◌>>=◌, ◌>>◌, pure, gets, modify, ok_or, panic_if, branch, run_on}
use p2p_pbft.Format.{text, decimal}
use p2p_pbft.Message.{NodeId, NetworkMessage, handshake, handshake_ack}
use p2p_pbft.Network.{NetworkError, connection_failed}
use p2p_pbft.Network.Frame.{Bincode, send_message, receive_message, peer_reader}
use p2p_pbft.Network.Peers.{PeerHandle, Network, Networking}

-- Whether `&id[..16]` panics: the id is shorter, or the byte at 16 does not start a character.
abbrev splits_character : Option ℕ → Bool
splits_character none = false
splits_character (some b) = leb 128 b && ltb b 192

abbrev pub slice_panics : Bytes → Bool
slice_panics id = if ltb (length id) 16 then true else splits_character (get_elem? id 16)

-- The answer to a handshake, and the first message of an incoming connection.
abbrev pub ack_of : NetworkMessage → Option (NodeId × List (NodeId × Bytes))
ack_of (handshake_ack node_id known_peers) = some (node_id, known_peers)
ack_of _ = none

abbrev pub handshake_of : NetworkMessage → Option (NodeId × ℕ)
handshake_of (handshake node_id listen_port) = some (node_id, listen_port)
handshake_of _ = none

-- `peers.write().insert(..)` of a handle with a new channel.
unfoldable pub store_peer : NodeId → Bytes → Networking (Unit {0})
store_peer peer_id address = modify (λ n. record n {
  peers =
      insert bytes_discrete peer_id
        (record {
          info = record { node_id = peer_id; address = address; connected = true };
          sent = [];
          is_open = true;
        })
        n.peers;
})

-- What the reader task does when it ends.
unfoldable pub forget_peer : NodeId → Networking (Unit {0})
forget_peer peer_id = modify (λ n. record n { peers = remove bytes_discrete peer_id n.peers })

-- The task that panics drops the receiver of the channel that it has just made.
abbrev pub close_handle : NodeId → Option PeerHandle → Network → Network
close_handle peer_id none n = n
close_handle peer_id (some p) n = record n {
  peers = insert bytes_discrete peer_id (record p { is_open = false }) n.peers;
}

unfoldable pub close_peer : Bool → NodeId → Network → Network
close_peer panics peer_id n =
    if panics then close_handle peer_id (lookup bytes_discrete peer_id n.peers) n else n

-- The peer is stored, and its id is logged.
unfoldable pub enter_peer : Bool → NodeId → Bytes → Networking (Unit {0})
enter_peer panics peer_id address = do
  store_peer peer_id address
  modify (close_peer panics peer_id)
  panic_if panics

-- A task that connects to a discovered peer is spawned.
abbrev dial_later : NodeId → Bytes → Networking (Unit {0})
dial_later id address = do
  panic_if (slice_panics id)
  modify (λ n. record n { dialing = address ∷ n.dialing })

-- The loop over the discovered peers: not this node, and not a peer of the table.
unfoldable pub discover : List (NodeId × Bytes) → Networking (Unit {0})
discover [] = pure tt
discover ((id, address) ∷ known) =
    let rest = discover known in
    gets (λ n. n) >>= λ n.
    branch (same id n.node_id || contains_key bytes_discrete id n.peers) (pure tt)
      (dial_later id address)
    >> rest

abbrev pub known_peers : Network → List (NodeId × Bytes)
known_peers n = map (λ p. (p.info.node_id, p.info.address)) (values n.peers)

-- `address.split(':').next()`
unfoldable pub host : Bytes → Bytes
host [] = []
host (c ∷ cs) = let rest = host cs in if c == b':' then [] else c ∷ rest

abbrev pub peer_address : Bytes → ℕ → Bytes
peer_address address port = host address ++ (b':' ∷ decimal port)

-- The messages that a reader task takes from the stream and forwards, with one turn more than the
-- stream has bytes; `room` is how many the receiver takes before it is dropped.
abbrev pub forwarded : Option (List NetworkMessage × Outcome NetworkError) → List NetworkMessage
forwarded none = []
forwarded (some (msgs, r)) = msgs

abbrev pub post :
    NodeId → List NetworkMessage → List (NodeId × NetworkMessage) → List (NodeId × NetworkMessage)
post peer_id [] tx = tx
post peer_id (msg ∷ msgs) tx = post peer_id msgs ((peer_id, msg) ∷ tx)

module _ (b : Bincode) where
  -- The reader task of a peer, from its start to the end of the stream.
  unfoldable pub serve_peer : ℕ → NodeId → Bytes → Networking (Unit {0})
  serve_peer room peer_id stream = do
    let msgs = forwarded (peer_reader b (suc (length stream)) room stream)
    modify (λ n. record n { message_tx = post peer_id msgs n.message_tx })
    forget_peer peer_id

  -- What both `connect_to_peer` do first: the answer of the peer and what its stream has left.
  unfoldable pub greet :
      (Bytes → Option Bytes) → Bytes → Networking ((NodeId × List (NodeId × Bytes)) × Bytes)
  greet dial address = do
    stream ← ok_or (dial address) (connection_failed address)
    n ← gets (λ n. n)
    _ ← run_on [] (send_message b (handshake n.node_id n.listen_port))
    (response, left) ← run_on stream (receive_message b)
    ack ← ok_or (ack_of response) (connection_failed (text "Invalid handshake response"))
    pure (ack, left)

  -- What follows the handshake in `Network::connect_to_peer`.
  unfoldable pub join_peer :
      Bytes → NodeId → List (NodeId × Bytes) → Bytes → Networking (NodeId × Bytes)
  join_peer address peer_id known_peers left = do
    enter_peer (slice_panics peer_id) peer_id address
    discover known_peers
    pure (peer_id, left)

  -- `Network::connect_to_peer`, up to the start of the reader task: the peer and its stream.
  unfoldable pub connect_to_peer : (Bytes → Option Bytes) → Bytes → Networking (NodeId × Bytes)
  connect_to_peer dial address = do
    ((peer_id, known_peers), left) ← greet dial address
    join_peer address peer_id known_peers left

  -- `NetworkHandle::connect_to_peer`, which looks for no further peers.
  unfoldable pub connect_by_handle : (Bytes → Option Bytes) → Bytes → Networking (NodeId × Bytes)
  connect_by_handle dial address = do
    ((peer_id, _), left) ← greet dial address
    store_peer peer_id address
    pure (peer_id, left)

  -- What follows the handshake in `handle_incoming_connection`, up to its reader.
  unfoldable pub welcome_peer : Bytes → NodeId → ℕ → Bytes → Networking (NodeId × Bytes)
  welcome_peer address peer_id peer_port left = do
    n ← gets (λ n. n)
    _ ← run_on [] (send_message b (handshake_ack n.node_id (known_peers n)))
    enter_peer (slice_panics peer_id) peer_id (peer_address address peer_port)
    pure (peer_id, left)

  unfoldable pub accept_connection : Bytes → Bytes → Networking (NodeId × Bytes)
  accept_connection stream address = do
    (msg, left) ← run_on stream (receive_message b)
    (peer_id, peer_port) ← ok_or (handshake_of msg) (connection_failed (text "Expected handshake"))
    welcome_peer address peer_id peer_port left

  unfoldable pub handle_incoming_connection : ℕ → Bytes → Bytes → Networking (Unit {0})
  handle_incoming_connection room stream address = do
    (peer_id, left) ← accept_connection stream address
    serve_peer room peer_id left
