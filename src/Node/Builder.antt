-- ===== src/Node/Builder.antt =====
-- src/node.rs: `NodeBuilder`.
use p2p_pbft.Base.{ℕ, List, [], ◌∷◌, ◌++◌, Option, none, some, Bytes}
use p2p_pbft.Base.Flow.{ok, err, panic, Flow, Step, next, stop, ◌>>◌, pure}
use p2p_pbft.External.{External}
use p2p_pbft.Network.Frame.{Bincode}
use p2p_pbft.Node.{Node, NodeError, node_new, connect}

pub record NodeBuilder : Type 0 where
  pub listen_port : ℕ
  pub seed : Option Bytes
  pub bootstrap_peers : List Bytes

unfoldable pub builder_new : ℕ → NodeBuilder
builder_new listen_port = record { listen_port = listen_port; seed = none; bootstrap_peers = [] }

unfoldable pub with_seed : Bytes → NodeBuilder → NodeBuilder
with_seed seed builder = record builder { seed = some seed }

unfoldable pub with_bootstrap_peer : Bytes → NodeBuilder → NodeBuilder
with_bootstrap_peer address builder = record builder {
  bootstrap_peers = builder.bootstrap_peers ++ (address ∷ []);
}

unfoldable pub with_bootstrap_peers : List Bytes → NodeBuilder → NodeBuilder
with_bootstrap_peers addresses builder = record builder {
  bootstrap_peers = builder.bootstrap_peers ++ addresses;
}

module _ (x : External) where
  unfoldable pub build : ℕ → x.SigningKey → NodeBuilder → Node x
  build now drawn builder = node_new x now drawn builder.listen_port builder.seed

  -- A connection that fails is logged.
  connect_logged : Bincode → (Bytes → Option Bytes) → Bytes → Flow (Node x) NodeError (Unit {0})
  connect_logged b dial address node = elim (connect x b dial address node) [
    | next _ u ↦ next tt u
    | stop ok u ↦ next tt u
    | stop (err e) u ↦ next tt u
    | stop panic u ↦ stop panic u
  ]

  unfoldable pub connect_all :
      Bincode → (Bytes → Option Bytes) → List Bytes → Flow (Node x) NodeError (Unit {0})
  unfolding connect_logged
  connect_all b dial [] = pure tt
  connect_all b dial (address ∷ addresses) =
      connect_logged b dial address >> connect_all b dial addresses

  unfoldable pub build_and_connect :
      ℕ
      → x.SigningKey
      → Bincode
      → (Bytes → Option Bytes)
      → NodeBuilder
      → Step (Node x) NodeError (Unit {0})
  build_and_connect now drawn b dial builder =
      connect_all b dial builder.bootstrap_peers (build now drawn builder)
