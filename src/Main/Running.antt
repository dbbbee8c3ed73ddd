-- ===== src/Main/Running.antt =====
-- src/main.rs: the main loop beside its network: what the readers put into the channel of messages is what
-- the loop takes from it.
pub mod Channel
pub mod Steps
pub mod Order
use mathlib.Core.List.{reverse}
use p2p_pbft.Base.{ℕ, suc, List, [], ◌∷◌, Option, none, some, get_elem?}
use p2p_pbft.Base.Flow.{Flow, next, stop, ◌>>◌, pure}
use p2p_pbft.External.{External}
use p2p_pbft.Message.{NodeId, NetworkMessage, Request}
use p2p_pbft.Network.Frame.{Bincode}
use p2p_pbft.Network.Table.{NetworkEvent, network_step}
use p2p_pbft.Pbft.Config.{PbftError}
use p2p_pbft.Host.{Host, Loop}
use p2p_pbft.Main.{MainEvent, submitted, arrived, outgoing_turn, main_turn}

-- A node in its main loop, which has taken the first `read` messages from the channel.
pub record Running (x : External) : Type 0 where
  pub host : Host x
  pub read : ℕ

-- The loop takes a request of the command line or the next message, the task of outgoing messages has a
-- turn, or a connection is made, accepted or read to its end.
pub data Happening : Type 0 where
  requested : ℕ → Request → Happening
  receives : ℕ → Happening
  sends : Happening
  network : NetworkEvent → Happening

module _ (b : Bincode) (x : External) (node_id : NodeId) where
  abbrev pub Run : Type 0
  Run = Flow (Running x) PbftError (Unit {0})

  unfoldable pub on_host : Loop x → Run
  on_host m r = elim (m r.host) [
    | next a h ↦ next a (record r { host = h })
    | stop o h ↦ stop o (record r { host = h })
  ]

  -- `network_rx.recv()`; where nothing has come the loop waits.
  unfoldable pub receive_next : ℕ → Option (NodeId × NetworkMessage) → Run
  receive_next now none r = next tt r
  receive_next now (some (peer_id, msg)) r =
      on_host (main_turn x node_id (arrived now peer_id msg)) (record r { read = suc r.read })

  unfoldable pub running_turn : Happening → Run
  running_turn (requested now request) r = on_host (main_turn x node_id (submitted now request)) r
  running_turn (receives now) r =
      receive_next now (get_elem? (reverse r.host.network.message_tx) r.read) r
  running_turn sends r = on_host (main_turn x node_id outgoing_turn) r
  running_turn (network e) r =
      next tt (record r { host = record r.host { network = network_step b e r.host.network } })

  unfoldable pub running : List Happening → Run
  running [] = pure tt
  running (e ∷ es) = running_turn e >> running es
