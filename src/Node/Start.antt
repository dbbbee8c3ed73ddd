-- ===== src/Node/Start.antt =====
-- src/node.rs: a node whose `start` has begun.
use p2p_pbft.Base.{◌≡◌, true, none}
use p2p_pbft.Base.Flow.{Step, next}
use p2p_pbft.External.{External}
use p2p_pbft.Pbft.State.{PbftConsensus, Engine}
use p2p_pbft.Host.{Host}
use p2p_pbft.Network.Peers
use p2p_pbft.Message.{consensus}
use p2p_pbft.Base.Flow.Stays.{Stays}
use p2p_pbft.Network.Peers.{Network}
use p2p_pbft.Node.{Node, NodeError}

module _ (x : External) where
  -- `start` stands in its loop, which has the engine; the structure has none, and the port is held.
  pub record Looping (w : PbftConsensus x) (r : Step (Node x) NodeError (Host x)) : Type 0 where
    pub host : Host x
    pub node : Node x
    pub runs : r ≡ next host node
    pub engine : host.consensus ≡ w
    pub taken_out : node.consensus ≡ none
    pub holds : node.network.listening ≡ true
