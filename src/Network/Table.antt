-- ===== src/Network/Table.antt =====
-- src/network.rs: the table of peers under every operation of the network.
use p2p_pbft.Base.{
  ◌≡◌, refl, List, [], ◌∷◌, Bool, true, false, Option, none, some, Bytes, bytes_discrete, arith, ℕ,
  inl, inr, Option-cases, Bool-cases,
}
use p2p_pbft.Base.Map.{lookup, insert, remove, lookup-insert, lookup-remove}
use p2p_pbft.Base.Keys.{
  Distinct, Distinct-insert, Distinct-remove, Distinct-update_all, lookup-update_all,
}
use p2p_pbft.Base.Flow.{after}
use p2p_pbft.Base.Flow.Stays.{Stays, Stays-modify, Stays-bind, Stays-gets, Stays-seq, stays_rules}
use p2p_pbft.Message.{NodeId, NetworkMessage}
use p2p_pbft.Network.Frame.{Bincode}
use p2p_pbft.Network.Peers.{
  Network, Networking, PeerHandle, push, send_to_peer, broadcast, network_new,
}
use p2p_pbft.Network.Broadcast.{sent_table, unknown_table}
use p2p_pbft.Network.Connect.{
  store_peer, forget_peer, close_handle, close_peer, enter_peer, discover, serve_peer, greet,
  connect_to_peer, join_peer, welcome_peer, connect_by_handle, accept_connection,
  handle_incoming_connection,
}

-- One entry for each id, which holds the handle of a peer of that id.
pub record TableOk (peers : List (NodeId × PeerHandle)) : Type 0 where
  pub distinct : Distinct bytes_discrete peers
  pub named :
      (id : NodeId) (p : PeerHandle) → lookup bytes_discrete id peers ≡ some p → p.info.node_id ≡ id

insert-TableOk :
    (id : NodeId) (p : PeerHandle) (peers : List (NodeId × PeerHandle))
    → p.info.node_id ≡ id
    → TableOk peers
    → TableOk (insert bytes_discrete id p peers)
insert-TableOk id p peers own t = record {
  distinct = Distinct-insert bytes_discrete id p peers t.distinct;
  named = λ j q e. elim (bytes_discrete id j) [
    | yes same_id ↦ ground (arith, lookup-insert bytes_discrete j id p peers)
    | no other ↦ t.named j q (ground (arith, lookup-insert bytes_discrete j id p peers))
  ];
}

remove-TableOk :
    (id : NodeId) (peers : List (NodeId × PeerHandle))
    → TableOk peers
    → TableOk (remove bytes_discrete id peers)
remove-TableOk id peers t = record {
  distinct = Distinct-remove bytes_discrete id peers t.distinct;
  named = λ j q e. t.named j q (ground (arith, lookup-remove bytes_discrete j id peers));
}

push_info : (msg : NetworkMessage) (p : PeerHandle) → (push msg p).info ≡ p.info
unfolding push
push_info msg p = elim (Bool-cases p.is_open) [ inl o ↦ rw (o) refl | inr c ↦ rw (c) refl ]

pub broadcast-TableOk :
    (msg : NetworkMessage) (n : Network) → TableOk n.peers → TableOk (broadcast msg n).peers
unfolding broadcast
broadcast-TableOk msg n t = record {
  distinct = Distinct-update_all bytes_discrete (push msg) n.peers t.distinct;
  named = λ j q e. elim (Option-cases (lookup bytes_discrete j n.peers)) [
    | inl missing ↦ ground (arith, lookup-update_all bytes_discrete (push msg) j n.peers)
    | inr (p, found) ↦ ground (
      arith,
      t.named j p found,
      push_info msg p,
      lookup-update_all bytes_discrete (push msg) j n.peers,
    )
  ];
}

pub send_to_peer-TableOk :
    (id : NodeId) (msg : NetworkMessage) (n : Network)
    → TableOk n.peers
    → TableOk (after (send_to_peer id msg n)).peers
send_to_peer-TableOk id msg n t = elim (Option-cases (lookup bytes_discrete id n.peers)) [
  | inl missing ↦ rw (unknown_table id msg n missing) t
  | inr (p, found) ↦ rw (sent_table id msg n p found) (
      insert-TableOk id (push msg p) n.peers (ground (arith, push_info msg p, t.named id p found))
        t)
]

abbrev Keeps : {A : Type 0} → Networking A → Type 0
Keeps = Stays (λ n. TableOk n.peers)

store_peer-Keeps : (id : NodeId) (address : Bytes) → Keeps (store_peer id address)
unfolding store_peer
store_peer-Keeps id address = Stays-modify _ _ λ n t. insert-TableOk id _ n.peers refl t

forget_peer-Keeps : (id : NodeId) → Keeps (forget_peer id)
unfolding forget_peer
forget_peer-Keeps id = Stays-modify _ _ λ n t. remove-TableOk id n.peers t

close_handle_lem :
    (id : NodeId) (o : Option PeerHandle) (n : Network)
    → lookup bytes_discrete id n.peers ≡ o
    → TableOk n.peers
    → TableOk (close_handle id o n).peers
close_handle_lem id none n e t = t
close_handle_lem id (some p) n e t = insert-TableOk id _ n.peers (t.named id p e) t

close_peer_lem :
    (panics : Bool) (id : NodeId) (n : Network)
    → TableOk n.peers
    → TableOk (close_peer panics id n).peers
unfolding close_peer
close_peer_lem true id n t = close_handle_lem id _ n refl t
close_peer_lem false id n t = t

enter_peer-Keeps : (p : Bool) (id : NodeId) (address : Bytes) → Keeps (enter_peer p id address)
unfolding enter_peer
enter_peer-Keeps p id address = search (stays_rules, store_peer-Keeps, close_peer_lem) depth 20

discover-Keeps : (known : List (NodeId × Bytes)) → Keeps (discover known)
unfolding discover
discover-Keeps [] = search stays_rules depth 10
discover-Keeps ((id, address) ∷ known) =
    Stays-bind _ _ (Stays-gets _ _)
      λ n. Stays-seq _ _ (search stays_rules depth 20) (discover-Keeps known)

module _ (b : Bincode) where
  serve_peer-Keeps : (room : ℕ) (id : NodeId) (stream : Bytes) → Keeps (serve_peer b room id stream)
  unfolding serve_peer
  serve_peer-Keeps room id stream = search (stays_rules, forget_peer-Keeps) depth 20

  greet-Keeps : (dial : Bytes → Option Bytes) (address : Bytes) → Keeps (greet b dial address)
  unfolding greet
  greet-Keeps dial address = search stays_rules depth 30

  connect_to_peer-Keeps :
      (dial : Bytes → Option Bytes) (address : Bytes) → Keeps (connect_to_peer b dial address)
  unfolding connect_to_peer join_peer
  connect_to_peer-Keeps dial address =
      search (stays_rules, greet-Keeps, enter_peer-Keeps, discover-Keeps) depth 30

  connect_by_handle-Keeps :
      (dial : Bytes → Option Bytes) (address : Bytes) → Keeps (connect_by_handle b dial address)
  unfolding connect_by_handle
  connect_by_handle-Keeps dial address =
      search (stays_rules, greet-Keeps, store_peer-Keeps) depth 30

  accept_connection-Keeps : (stream address : Bytes) → Keeps (accept_connection b stream address)
  unfolding accept_connection welcome_peer
  accept_connection-Keeps stream address = search (stays_rules, enter_peer-Keeps) depth 30

  handle_incoming-Keeps :
      (room : ℕ) (stream address : Bytes) → Keeps (handle_incoming_connection b room stream address)
  unfolding handle_incoming_connection
  handle_incoming-Keeps room stream address =
      search (stays_rules, accept_connection-Keeps, serve_peer-Keeps) depth 30

-- What can happen to a network: a connection made or accepted, a reader that ends, a message sent or
-- broadcast. `accepted` is the handshake of an incoming connection, whose reader ends later, `incoming` one
-- whose reader ends before anything else happens.
pub data NetworkEvent : Type 0 where
  dialed dialed_by_handle : (Bytes → Option Bytes) → Bytes → NetworkEvent
  incoming : ℕ → Bytes → Bytes → NetworkEvent
  accepted : Bytes → Bytes → NetworkEvent
  reader_ran : ℕ → NodeId → Bytes → NetworkEvent
  sent : NodeId → NetworkMessage → NetworkEvent
  broadcasted : NetworkMessage → NetworkEvent

abbrev pub network_step : Bincode → NetworkEvent → Network → Network
network_step b (dialed dial address) n = after (connect_to_peer b dial address n)
network_step b (dialed_by_handle dial address) n = after (connect_by_handle b dial address n)
network_step b (incoming room stream address) n =
    after (handle_incoming_connection b room stream address n)
network_step b (accepted stream address) n = after (accept_connection b stream address n)
network_step b (reader_ran room id stream) n = after (serve_peer b room id stream n)
network_step b (sent id msg) n = after (send_to_peer id msg n)
network_step b (broadcasted msg) n = broadcast msg n

abbrev pub network_run : Bincode → List NetworkEvent → Network → Network
network_run b [] n = n
network_run b (e ∷ es) n = network_run b es (network_step b e n)

step-TableOk :
    (b : Bincode) (e : NetworkEvent) (n : Network)
    → TableOk n.peers
    → TableOk (network_step b e n).peers
step-TableOk b (dialed dial address) n t = (connect_to_peer-Keeps b dial address).at n t
step-TableOk b (dialed_by_handle dial address) n t = (connect_by_handle-Keeps b dial address).at n t
step-TableOk b (incoming room stream address) n t =
    (handle_incoming-Keeps b room stream address).at n t
step-TableOk b (accepted stream address) n t = (accept_connection-Keeps b stream address).at n t
step-TableOk b (reader_ran room id stream) n t = (serve_peer-Keeps b room id stream).at n t
step-TableOk b (sent id msg) n t = send_to_peer-TableOk id msg n t
step-TableOk b (broadcasted msg) n t = broadcast-TableOk msg n t

pub run-TableOk :
    (b : Bincode) (es : List NetworkEvent) (n : Network)
    → TableOk n.peers
    → TableOk (network_run b es n).peers
run-TableOk b [] n t = t
run-TableOk b (e ∷ es) n t = run-TableOk b es (network_step b e n) (step-TableOk b e n t)

-- After any sequence of connections made and accepted, whatever the other side sends on them, readers
-- that end, sends and broadcasts, a new network's table of peers has at most one entry for an id, and
-- it holds a peer of that id; errors and panics on the way included.
pub table_named :
    (b : Bincode) (node_id : NodeId) (port : ℕ) (es : List NetworkEvent)
    → TableOk (network_run b es (network_new node_id port)).peers
unfolding network_new lookup
table_named b node_id port es =
    run-TableOk b es (network_new node_id port)
      (record { distinct = tt; named = λ id p e. absurd (cc) })
