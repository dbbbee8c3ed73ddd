-- ===== src/Tests/Peers.antt =====
-- The table of peers, at concrete networks.
use p2p_pbft.Base.{
  ℕ, ◌≡◌, refl, [], ◌∷◌, ◌==◌, if◌then◌else◌, Option, none, some, Bytes, arith, bytes_discrete,
  ℕ_discrete,
}
use p2p_pbft.Format.{text}
use p2p_pbft.Base.Map.{lookup, insert}
use p2p_pbft.Base.Keys.{keys}
use p2p_pbft.Base.Flow.{next, err, after, outcome}
use p2p_pbft.Message.{NetworkMessage, handshake, handshake_ack, ping}
use p2p_pbft.Network.{peer_not_found}
use p2p_pbft.Network.Frame.{Bincode, peer_writer}
use p2p_pbft.Network.Peers.{Network, network_new, broadcast, send_to_peer}
use p2p_pbft.Network.Broadcast.{send_each, broadcast-eq-send_each}
use p2p_pbft.Network.Connect.{connect_to_peer, accept_connection, serve_peer, post, peer_address}
use p2p_pbft.Network.Table.{TableOk, accepted, network_run, table_named}
use p2p_pbft.Network.Meeting.{new_peer, hello_of, ack_of, connect-accept, serve_peer-peer_writer}
use p2p_pbft.Tests.Sample.{node}

-- Handshakes without known peers, and pings.
abbrev write_greeting : NetworkMessage → Option Bytes
write_greeting (handshake id port) = some (1 ∷ port ∷ id)
write_greeting (handshake_ack id []) = some (2 ∷ id)
write_greeting (ping id time) = some (3 ∷ time ∷ id)
write_greeting _ = none

abbrev read_ack : ℕ → Bytes → Option NetworkMessage
read_ack kind id = if kind == 2 then some (handshake_ack id []) else none

abbrev read_greeting : Bytes → Option NetworkMessage
read_greeting (kind ∷ n ∷ id) =
    if kind == 1
    then some (handshake id n)
    else if kind == 3
    then some (ping id n)
    else read_ack kind (n ∷ id)
read_greeting _ = none

abbrev pub greetings : Bincode
greetings = record { serialize = write_greeting; deserialize = read_greeting }

abbrev one : Network
one = network_new (node 1) 8001

abbrev two : Network
two = network_new (node 2) 8002

abbrev host_of_one : Bytes
host_of_one = text "10.0.0.1:55555"

abbrev to_two : Bytes
to_two = text "10.0.0.2:8002"

connect-accept_example :
    ((u : Network) × (connect_to_peer greetings
          (λ _. some (peer_writer greetings (ack_of two ∷ ping [] 4 ∷ []) []))
          to_two
          one
        ≡ next (two.node_id, peer_writer greetings (ping [] 4 ∷ []) []) u)
      × (u.peers ≡ insert bytes_discrete two.node_id (new_peer two.node_id to_two) one.peers))
    × (accept_connection greetings
          (peer_writer greetings (hello_of one ∷ ping [] 9 ∷ []) [])
          host_of_one
          two
        ≡ next
            (one.node_id, peer_writer greetings (ping [] 9 ∷ []) [])
            (record two {
              peers =
                  insert bytes_discrete one.node_id
                    (new_peer one.node_id (peer_address host_of_one one.listen_port))
                    two.peers;
            }))
unfolding network_new
connect-accept_example =
    connect-accept greetings one two
      (λ _. some (peer_writer greetings (ack_of two ∷ ping [] 4 ∷ []) [])) to_two host_of_one
      (ping [] 9 ∷ []) (ping [] 4 ∷ [])
      ((1 ∷ 8001 ∷ node 1, refl, refl, omega arith), ((3 ∷ 9 ∷ [], refl, refl, omega arith), tt))
      ((2 ∷ node 2, refl, refl, omega arith), ((3 ∷ 4 ∷ [], refl, refl, omega arith), tt)) refl refl
      tt refl

serve_peer-peer_writer_example :
    let u =
      after (serve_peer greetings 5 (node 1) (peer_writer greetings (ping [] 9 ∷ []) []) two) in
    (u.message_tx ≡ post (node 1) (ping [] 9 ∷ []) two.message_tx)
    × (lookup bytes_discrete (node 1) u.peers ≡ none)
    × (outcome (send_to_peer (node 1) (ping [] 9) u) ≡ err (peer_not_found (node 1)))
serve_peer-peer_writer_example =
    serve_peer-peer_writer greetings two 5 (node 1) (ping [] 9 ∷ []) (ping [] 9)
      ((3 ∷ 9 ∷ [], refl, refl, omega arith), tt) (omega arith)

-- Two has accepted one.
abbrev met : Network
met =
    network_run greetings (accepted (peer_writer greetings (hello_of one ∷ []) []) host_of_one ∷ [])
      two

table_named_example : TableOk met.peers
table_named_example =
    table_named greetings (node 2) 8002
      (accepted (peer_writer greetings (hello_of one ∷ []) []) host_of_one ∷ [])

abbrev known_to_both : Network
known_to_both = record two {
  peers = (node 1, new_peer (node 1) to_two) ∷ (node 3, new_peer (node 3) host_of_one) ∷ [];
}

broadcast-eq-send_each_example :
    lookup bytes_discrete (node 3) (broadcast (ping [] 9) known_to_both).peers
    ≡ lookup bytes_discrete
        (node 3)
        (send_each (ping [] 9) (keys known_to_both.peers) known_to_both).peers
unfolding lookup bytes_discrete ℕ_discrete
broadcast-eq-send_each_example =
    broadcast-eq-send_each (ping [] 9) known_to_both (node 3) (refl, (refl, tt))
