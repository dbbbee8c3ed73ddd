-- ===== src/Network/Broadcast.antt =====
-- src/network.rs: `broadcast` against `send_to_peer`, one peer after the other.
use mathlib.Core.Logic.{ite}
use p2p_pbft.Base.{
  ◌≡◌, refl, List, [], ◌∷◌, none, some, bytes_discrete, arith, Option-cases, Bool-cases, inl, inr,
  if◌then◌else◌,
}
use p2p_pbft.Base.Map.{lookup, insert, lookup-insert}
use p2p_pbft.Base.Keys.{
  keys, update, elem, NoRepeat, Distinct, elem-keys, NoRepeat-keys, lookup-update_all,
}
use p2p_pbft.Base.Flow.{flow, after}
use p2p_pbft.Message.{NodeId, NetworkMessage}
use p2p_pbft.Network.Peers.{Network, PeerHandle, push, send_to_peer, broadcast}

-- `send_to_peer` for each id of a list, whatever the result of the others.
unfoldable pub send_each : NetworkMessage → List NodeId → Network → Network
send_each msg [] n = n
send_each msg (id ∷ ids) n = send_each msg ids (after (send_to_peer id msg n))

pub sent_table :
    (id : NodeId) (msg : NetworkMessage) (n : Network) (p : PeerHandle)
    → lookup bytes_discrete id n.peers ≡ some p
    → (after (send_to_peer id msg n)).peers ≡ insert bytes_discrete id (push msg p) n.peers
unfolding flow send_to_peer
sent_table id msg n p e = elim (Bool-cases p.is_open) [
  | inl opened ↦ rw (e, opened) refl
  | inr closed ↦ rw (e, closed) refl
]

pub unknown_table :
    (id : NodeId) (msg : NetworkMessage) (n : Network)
    → lookup bytes_discrete id n.peers ≡ none
    → (after (send_to_peer id msg n)).peers ≡ n.peers
unfolding flow send_to_peer
unknown_table id msg n e = rw (e) refl

lookup-send_to_peer :
    (id j : NodeId) (msg : NetworkMessage) (n : Network)
    → lookup bytes_discrete j (after (send_to_peer id msg n)).peers
      ≡ ite
          (bytes_discrete id j)
          (update (push msg) (lookup bytes_discrete j n.peers))
          (lookup bytes_discrete j n.peers)
lookup-send_to_peer id j msg n = elim (Option-cases (lookup bytes_discrete id n.peers)) [
  | inl e ↦ ground (arith, unknown_table id msg n e)
  | inr (p, e) ↦
      ground
        (arith, sent_table id msg n p e, lookup-insert bytes_discrete j id (push msg p) n.peers)
]

lookup-send_each :
    (j : NodeId) (msg : NetworkMessage) (ids : List NodeId) (n : Network)
    → NoRepeat bytes_discrete ids
    → lookup bytes_discrete j (send_each msg ids n).peers ≡ (
        if elem bytes_discrete j ids
        then update (push msg) (lookup bytes_discrete j n.peers)
        else lookup bytes_discrete j n.peers)
unfolding send_each
lookup-send_each j msg [] n fresh = refl
lookup-send_each j msg (id ∷ ids) n (new, fresh) = ground (
  arith,
  lookup-send_each j msg ids (after (send_to_peer id msg n)) fresh,
  lookup-send_to_peer id j msg n,
)

-- If no two entries of the table of peers have the same id, a broadcast leaves each peer as sending the
-- message to every peer of the table in turn would, failed sends included.
pub broadcast-eq-send_each :
    (msg : NetworkMessage) (n : Network) (id : NodeId)
    → Distinct bytes_discrete n.peers
    → lookup bytes_discrete id (broadcast msg n).peers
      ≡ lookup bytes_discrete id (send_each msg (keys n.peers) n).peers
unfolding broadcast
broadcast-eq-send_each msg n id d = ground (
  arith,
  lookup-update_all bytes_discrete (push msg) id n.peers,
  lookup-send_each id msg (keys n.peers) n (NoRepeat-keys bytes_discrete n.peers d),
  elem-keys bytes_discrete id n.peers,
)
