-- ===== src/Network/Channel.antt =====
-- src/network.rs: the channel into which the readers put what comes, in the order in which it comes.
use mathlib.Core.List.{reverse, reverse-cons, append_assoc}
use p2p_pbft.Base.{
  ℕ, ◌≡◌, ap, ◌∙◌, List, [], ◌∷◌, ◌++◌, Bool, true, false, Option, none, some, Bytes,
}
use p2p_pbft.Base.Flow.Stays.{Stays, Stays-bind, Stays-gets, Stays-seq, stays_rules}
use p2p_pbft.Message.{NodeId, NetworkMessage}
use p2p_pbft.Network.Frame.{Bincode}
use p2p_pbft.Network.Peers.{Network, Networking, PeerHandle, send_to_peer, broadcast}
use p2p_pbft.Network.Connect.{
  store_peer, forget_peer, close_handle, close_peer, enter_peer, discover, serve_peer, greet, post,
  connect_to_peer, join_peer, welcome_peer, connect_by_handle, accept_connection,
  handle_incoming_connection,
}
use p2p_pbft.Network.Table.{
  NetworkEvent, dialed, dialed_by_handle, incoming, accepted, reader_ran, sent, broadcasted,
  network_step,
}

-- What has come, the first message first.
abbrev pub came : Network → List (NodeId × NetworkMessage)
came n = reverse n.message_tx

-- `before` stands in front.
pub record Since (before now : List (NodeId × NetworkMessage)) : Type 0 where
  pub more : List (NodeId × NetworkMessage)
  pub in_front : now ≡ before ++ more

module _ (before : List (NodeId × NetworkMessage)) where
  post-Since :
      (id : NodeId) (msgs : List NetworkMessage) (tx more : List (NodeId × NetworkMessage))
      → reverse tx ≡ before ++ more
      → Since before (reverse (post id msgs tx))
  post-Since id [] tx more h = record { more = more; in_front = h }
  post-Since id (msg ∷ msgs) tx more h =
      post-Since id msgs ((id, msg) ∷ tx) (more ++ (id, msg) ∷ [])
        (reverse-cons (id, msg) tx ∙ (ap (λ l. l ++ (id, msg) ∷ []) h ∙ append_assoc before more _))

  posted :
      (id : NodeId) (msgs : List NetworkMessage) (n : Network)
      → Since before (came n)
      → Since before (reverse (post id msgs n.message_tx))
  posted id msgs n h = post-Since id msgs n.message_tx h.more h.in_front

  abbrev pub Keeps : {A : Type 0} → Networking A → Type 0
  Keeps = Stays (λ n. Since before (came n))

  close_handle-Since :
      (id : NodeId) (o : Option PeerHandle) (n : Network)
      → Since before (came n)
      → Since before (came (close_handle id o n))
  close_handle-Since id none n h = h
  close_handle-Since id (some p) n h = h

  close_peer-Since :
      (panics : Bool) (id : NodeId) (n : Network)
      → Since before (came n)
      → Since before (came (close_peer panics id n))
  unfolding close_peer
  close_peer-Since true id n h = close_handle-Since id _ n h
  close_peer-Since false id n h = h

  enter_peer-Keeps : (p : Bool) (id : NodeId) (address : Bytes) → Keeps (enter_peer p id address)
  unfolding enter_peer store_peer
  enter_peer-Keeps p id address = search (stays_rules, close_peer-Since) depth 20

  discover-Keeps : (known : List (NodeId × Bytes)) → Keeps (discover known)
  unfolding discover
  discover-Keeps [] = search stays_rules depth 10
  discover-Keeps ((id, address) ∷ known) =
      Stays-bind _ _ (Stays-gets _ _)
        λ n. Stays-seq _ _ (search stays_rules depth 20) (discover-Keeps known)

  pub send_to_peer-Keeps : (id : NodeId) (msg : NetworkMessage) → Keeps (send_to_peer id msg)
  unfolding send_to_peer
  send_to_peer-Keeps id msg = search stays_rules depth 20

  pub broadcast-Since :
      (msg : NetworkMessage) (n : Network)
      → Since before (came n)
      → Since before (came (broadcast msg n))
  unfolding broadcast
  broadcast-Since msg n h = h

  module _ (b : Bincode) where
    serve_peer-Keeps :
        (room : ℕ) (id : NodeId) (stream : Bytes) → Keeps (serve_peer b room id stream)
    unfolding serve_peer forget_peer
    serve_peer-Keeps room id stream = search (stays_rules, posted) depth 20

    greet-Keeps : (dial : Bytes → Option Bytes) (address : Bytes) → Keeps (greet b dial address)
    unfolding greet
    greet-Keeps dial address = search stays_rules depth 30

    connect_to_peer-Keeps :
        (dial : Bytes → Option Bytes) (address : Bytes) → Keeps (connect_to_peer b dial address)
    unfolding connect_to_peer join_peer
    connect_to_peer-Keeps dial address =
        search (stays_rules, greet-Keeps, enter_peer-Keeps, discover-Keeps) depth 30

    connect_by_handle-Keeps :
        (dial : Bytes → Option Bytes) (address : Bytes) → Keeps (connect_by_handle b dial address)
    unfolding connect_by_handle store_peer
    connect_by_handle-Keeps dial address = search (stays_rules, greet-Keeps) depth 30

    accept_connection-Keeps : (stream address : Bytes) → Keeps (accept_connection b stream address)
    unfolding accept_connection welcome_peer
    accept_connection-Keeps stream address = search (stays_rules, enter_peer-Keeps) depth 30

    handle_incoming-Keeps :
        (room : ℕ) (stream address : Bytes)
        → Keeps (handle_incoming_connection b room stream address)
    unfolding handle_incoming_connection
    handle_incoming-Keeps room stream address =
        search (stays_rules, accept_connection-Keeps, serve_peer-Keeps) depth 30

    -- Whatever happens to a network, what has come in stays in front.
    pub network_step-Since :
        (e : NetworkEvent) (n : Network)
        → Since before (came n)
        → Since before (came (network_step b e n))
    network_step-Since (dialed dial address) n h = (connect_to_peer-Keeps dial address).at n h
    network_step-Since (dialed_by_handle dial address) n h =
        (connect_by_handle-Keeps dial address).at n h
    network_step-Since (incoming room stream address) n h =
        (handle_incoming-Keeps room stream address).at n h
    network_step-Since (accepted stream address) n h =
        (accept_connection-Keeps stream address).at n h
    network_step-Since (reader_ran room id stream) n h = (serve_peer-Keeps room id stream).at n h
    network_step-Since (sent id msg) n h = (send_to_peer-Keeps id msg).at n h
    network_step-Since (broadcasted msg) n h = broadcast-Since msg n h
