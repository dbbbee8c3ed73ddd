-- ===== src/Network/Meeting.antt =====
-- src/network.rs: two nodes that connect, and the messages of one that reach the other.
use p2p_pbft.Base.{
  ℕ, same, ◌||◌, inl, inr, Bool-cases, suc, ◌≤◌, ◌≡◌, refl, ap, ◌∙◌, List, [], ◌∷◌, Bool, true,
  false, Option, none, some, length, length-append, Bytes, bytes_discrete, arith,
}
use p2p_pbft.Base.Map.{lookup, insert, contains_key, remove, lookup-remove}
use p2p_pbft.Base.Flow.{
  err, Step, next, stop, Flow, run_on, ok_or, gets, pure, flow, after, outcome,
}
use p2p_pbft.Base.Flow.Runs.{bind-next, seq-next}
use p2p_pbft.Words.{to_le_bytes, length-to_le_bytes}
use p2p_pbft.Message.{NodeId, NetworkMessage, handshake, handshake_ack}
use p2p_pbft.Network.{NetworkError, peer_not_found}
use p2p_pbft.Network.Frame.{Bincode, send_message, receive_message, peer_writer}
use p2p_pbft.Network.Peers.{Network, PeerHandle, send_to_peer}
use p2p_pbft.Network.RoundTrip.{
  Fits, AllFit, framed, send_message-framed, receive_message-Fits, peer_writer-cons,
  peer_reader-peer_writer,
}
use p2p_pbft.Network.Connect.{
  enter_peer, known_peers, peer_address, slice_panics, forget_peer, serve_peer, forwarded, post,
  greet, accept_connection, connect_to_peer, join_peer, welcome_peer, store_peer, close_peer,
  discover,
}

-- A handle of a peer that has just been stored.
abbrev pub new_peer : NodeId → Bytes → PeerHandle
new_peer id address = record {
  info = record { node_id = id; address = address; connected = true };
  sent = [];
  is_open = true;
}

run_on-next :
    {S T E A : Type 0} (t t' : T) (m : Flow T E A) (s : S) (a : A)
    → m t ≡ next a t'
    → run_on t m s ≡ next (a, t') s
unfolding flow
run_on-next {S} {T} {E} {A} t t' m s a h =
    ap
      (λ r.
        let u : Step S E (A × T) = elim r [ next a t' ↦ next (a, t') s | stop r t' ↦ stop r s ] in
        u)
      h

-- The handshake that a node sends, and its acknowledgement of one.
abbrev pub hello_of : Network → NetworkMessage
hello_of n = handshake n.node_id n.listen_port

abbrev pub ack_of : Network → NetworkMessage
ack_of n = handshake_ack n.node_id (known_peers n)

-- The ids of the peers can be sliced for the log lines.
abbrev pub Sliceable : List (NodeId × Bytes) → Type 0
Sliceable [] = Unit {0}
Sliceable ((id, _) ∷ known) = (slice_panics id ≡ false) × Sliceable known

-- The code goes on, with this table of peers.
record GoesOn {A : Type 0} (a : A) (peers : List (NodeId × PeerHandle))
    (r : Step Network NetworkError A) : Type 0 where
  network : Network
  goes_on : r ≡ next a network
  table : network.peers ≡ peers

-- The discovery of further peers leaves the table alone.
discover-GoesOn :
    (known : List (NodeId × Bytes)) (n : Network)
    → Sliceable known
    → GoesOn tt n.peers (discover known n)
unfolding flow discover
discover-GoesOn [] n s = record { network = n; goes_on = refl; table = refl }
discover-GoesOn ((id, address) ∷ known) n (sliced, s) =
    elim (Bool-cases (same id n.node_id || contains_key bytes_discrete id n.peers)) [
      | inl known_already ↦ rw (known_already) (discover-GoesOn known n s)
      | inr fresh ↦
          rw (fresh, sliced) (discover-GoesOn known (record n { dialing = address ∷ n.dialing }) s)
    ]

module _ (b : Bincode) where
  -- The first message that a peer writes is the first that is received.
  receive-peer_writer :
      (msg : NetworkMessage) (msgs : List NetworkMessage)
      → AllFit b (msg ∷ msgs)
      → receive_message b (peer_writer b (msg ∷ msgs) []) ≡ next msg (peer_writer b msgs [])
  receive-peer_writer msg msgs ((bytes, sent, read, small), fit) =
      ap (receive_message b) (peer_writer-cons b msg msgs bytes sent small fit)
      ∙ receive_message-Fits b msg bytes (peer_writer b msgs []) read small

  greet_lem :
      (n m : Network) (dial : Bytes → Option Bytes) (address : Bytes) (msgs : List NetworkMessage)
      → Fits b (hello_of n)
      → AllFit b (ack_of m ∷ msgs)
      → dial address ≡ some (peer_writer b (ack_of m ∷ msgs) [])
      → greet b dial address n ≡ next ((m.node_id, known_peers m), peer_writer b msgs []) n
  unfolding greet ok_or gets pure
  greet_lem n m dial address msgs (bytes, sent, _, small) fit connects =
      let stream = peer_writer b (ack_of m ∷ msgs) [] in
      bind-next (ok_or (dial address) _) _ n n stream (rw (connects) refl)
      ∙ (bind-next _ _ n n n refl
          ∙ (bind-next _ _ n n _ (
                run_on-next [] (framed bytes) (send_message b (hello_of n)) n tt
                  (send_message-framed b (hello_of n) bytes [] sent (omega arith)))
              ∙ (bind-next _ _ n n _ (
                    run_on-next stream _ (receive_message b) n (ack_of m)
                      (receive-peer_writer (ack_of m) msgs fit))
                  ∙ bind-next _ _ n n _ refl)))

  enter_peer_lem :
      (panics : Bool) (id : NodeId) (address : Bytes) (n : Network)
      → panics ≡ false
      → enter_peer panics id address n
        ≡ next tt (record n { peers = insert bytes_discrete id (new_peer id address) n.peers })
  unfolding flow enter_peer store_peer close_peer
  enter_peer_lem true id address n h = absurd (cc)
  enter_peer_lem false id address n h = refl

  join_peer-GoesOn :
      (address : Bytes) (id : NodeId) (known : List (NodeId × Bytes)) (left : Bytes) (n : Network)
      → slice_panics id ≡ false
      → Sliceable known
      → GoesOn
          (id, left)
          (insert bytes_discrete id (new_peer id address) n.peers)
          (join_peer b address id known left n)
  unfolding join_peer pure
  join_peer-GoesOn address id known left n fits s =
      let entered = record n { peers = insert bytes_discrete id (new_peer id address) n.peers } in
      let d = discover-GoesOn known entered s in
      record {
        network = d.network;
        goes_on =
            seq-next (enter_peer (slice_panics id) id address) _ n entered
              (enter_peer_lem (slice_panics id) id address n fits)
            ∙ seq-next (discover known) _ entered d.network d.goes_on;
        table = d.table;
      }

  welcome_peer_lem :
      (address : Bytes) (id : NodeId) (port : ℕ) (left : Bytes) (m : Network)
      → Fits b (ack_of m)
      → slice_panics id ≡ false
      → welcome_peer b address id port left m
        ≡ next
            (id, left)
            (record m {
              peers = insert bytes_discrete id (new_peer id (peer_address address port)) m.peers;
            })
  unfolding gets welcome_peer pure
  welcome_peer_lem address id port left m (bytes, sent, _, small) fits =
      bind-next _ _ m m m refl
      ∙ (bind-next _ _ m m _ (
            run_on-next [] (framed bytes) (send_message b (ack_of m)) m tt
              (send_message-framed b (ack_of m) bytes [] sent (omega arith)))
          ∙ seq-next (enter_peer (slice_panics id) id _) _ m _
              (enter_peer_lem (slice_panics id) id (peer_address address port) m fits))

  -- If the two messages of the handshake and all that follow on the two streams are read back from their
  -- serializations and are within the limit, and the ids of the two nodes and of the peers that the
  -- accepting node knows are long enough for the log lines, then the node that connects has the other in
  -- its table, open and at the address that it dialed, and the node that accepts has the first in its
  -- own, at the host of the connection and the port of the handshake; each goes on, without an error or a
  -- panic, with the id of the other and the stream of the messages that follow the handshake.
  pub connect-accept :
      (n m : Network) (dial : Bytes → Option Bytes) (address from : Bytes)
      (from_n from_m : List NetworkMessage)
      → AllFit b (hello_of n ∷ from_n)
      → AllFit b (ack_of m ∷ from_m)
      → slice_panics n.node_id ≡ false
      → slice_panics m.node_id ≡ false
      → Sliceable (known_peers m)
      → dial address ≡ some (peer_writer b (ack_of m ∷ from_m) [])
      → ((u : Network) × (connect_to_peer b dial address n
            ≡ next (m.node_id, peer_writer b from_m []) u)
          × (u.peers ≡ insert bytes_discrete m.node_id (new_peer m.node_id address) n.peers))
        × (accept_connection b (peer_writer b (hello_of n ∷ from_n) []) from m
            ≡ next
                (n.node_id, peer_writer b from_n [])
                (record m {
                  peers =
                      insert bytes_discrete n.node_id
                        (new_peer n.node_id (peer_address from n.listen_port))
                        m.peers;
                }))
  unfolding connect_to_peer accept_connection ok_or
  connect-accept n m dial address from from_n from_m hello ack id_n id_m known connects =
      let stream = peer_writer b (hello_of n ∷ from_n) [] in
      let joined =
        join_peer-GoesOn address m.node_id (known_peers m) (peer_writer b from_m []) n id_m known in
      (
        (
          joined.network,
          bind-next _ _ n n _ (greet_lem n m dial address from_m hello.0 ack connects)
              ∙ joined.goes_on,
          joined.table,
        ),
        bind-next _ _ m m _ (
              run_on-next stream _ (receive_message b) m (hello_of n)
                (receive-peer_writer (hello_of n) from_n hello))
            ∙ (bind-next _ _ m m _ refl
                ∙ welcome_peer_lem from n.node_id n.listen_port (peer_writer b from_n []) m ack.0
                    id_n),
      )

  length-peer_writer :
      (msgs : List NetworkMessage) → AllFit b msgs → length msgs ≤ length (peer_writer b msgs [])
  unfolding peer_writer
  length-peer_writer [] fit = omega arith
  length-peer_writer (msg ∷ msgs) ((bytes, sent, _, small), fit) =
      let framed_length = length-append (framed bytes) (peer_writer b msgs []) in
      let body_length = length-append (to_le_bytes 4 (length bytes)) bytes in
      let whole = ap length (peer_writer-cons b msg msgs bytes sent small fit) in
      omega (arith, length-peer_writer msgs fit, length-to_le_bytes 4 (length bytes))

  -- What a peer writes, each message within the limit and read back from its serialization, the reader
  -- puts into the channel of messages under the peer's id, in order, if the receiver takes that many; then
  -- the stream is at its end and the id is forgotten, also where another connection has stored a new
  -- handle under it meanwhile: a message to it finds no peer.
  pub serve_peer-peer_writer :
      (n : Network) (room : ℕ) (id : NodeId) (msgs : List NetworkMessage) (msg : NetworkMessage)
      → AllFit b msgs
      → length msgs ≤ room
      → let u = after (serve_peer b room id (peer_writer b msgs []) n) in
        (u.message_tx ≡ post id msgs n.message_tx)
        × (lookup bytes_discrete id u.peers ≡ none)
        × (outcome (send_to_peer id msg u) ≡ err (peer_not_found id))
  unfolding flow serve_peer forget_peer send_to_peer
  serve_peer-peer_writer n room id msgs msg fit takes =
      let stream = peer_writer b msgs [] in
      let all_read =
        peer_reader-peer_writer b msgs room (suc (length stream)) fit takes
          (omega (arith, length-peer_writer msgs fit)) in
      let forgotten : lookup bytes_discrete id (remove bytes_discrete id n.peers) ≡ none =
        ground (arith, lookup-remove bytes_discrete id id n.peers) in
      (ap (λ o. post id (forwarded o) n.message_tx) all_read, forgotten, rw (forgotten) refl)
