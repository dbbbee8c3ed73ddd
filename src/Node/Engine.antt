-- ===== src/Node/Engine.antt =====
-- src/node.rs, `Node::start`: the loop against the engine alone.
use p2p_pbft.Base.{ℕ, ◌≡◌, List, [], ◌∷◌}
use p2p_pbft.Base.Flow.{ok, flow, after, outcome}
use p2p_pbft.External.{External}
use p2p_pbft.Message.{NodeId, consensus, ping, pong, handshake, handshake_ack}
use p2p_pbft.Pbft.Process.{Input, received, process_message, process_input, process_all}
use p2p_pbft.Pbft.Invariant.{Inv}
use p2p_pbft.Pbft.Safety.{process_input-Inv}
use p2p_pbft.Host.{Host}
use p2p_pbft.Host.Loop.{
  Turns, logged-Turns, dispatch-Turns, send_pong-Turns, nothing-Turns, All, inputs_of,
  run_loop-Refines,
}
use p2p_pbft.Node.{NodeEvent, arrived, outgoing_turn, node_message, node_turn, node_loop}

-- The messages for the engine among what happens to a node.
abbrev pub engine_input : NodeEvent → List (ℕ × Input)
engine_input (arrived now peer_id (consensus m)) = (now, received m) ∷ []
engine_input _ = []

module _ (x : External) where
  node_turn-Turns :
      (node_id : NodeId) (e : NodeEvent) (h : Host x)
      → Inv x h.consensus
      → Turns x (process_all x (engine_input e) h.consensus) (node_turn x node_id e h)
  unfolding flow node_turn node_message process_all process_input
  node_turn-Turns node_id (arrived now peer_id (consensus m)) h v =
      logged-Turns x (process_message x now m) h
        (process_input-Inv x now (received m) h.consensus v).1
  node_turn-Turns node_id (arrived now peer_id (ping from timestamp)) h v =
      send_pong-Turns x from node_id timestamp h
  node_turn-Turns node_id (arrived now peer_id (pong _ _)) h v = nothing-Turns x h
  node_turn-Turns node_id (arrived now peer_id (handshake _ _)) h v = nothing-Turns x h
  node_turn-Turns node_id (arrived now peer_id (handshake_ack _ _)) h v = nothing-Turns x h
  node_turn-Turns node_id outgoing_turn h v = dispatch-Turns x h

  -- From an engine that meets the invariant, the loop of a node ends only with its channel, never by a
  -- panic, and its engine is the engine that gets the same consensus messages and nothing else, wherever
  -- pings, pongs, handshakes and turns of the task that sends come between them.
  pub node_loop-Refines :
      (node_id : NodeId) (es : List NodeEvent) (h : Host x)
      → Inv x h.consensus
      → (outcome (node_loop x node_id es h) ≡ ok)
        × ((after (node_loop x node_id es h)).consensus
            ≡ process_all x (inputs_of engine_input es) h.consensus)
  unfolding node_loop
  node_loop-Refines node_id es h v =
      run_loop-Refines x (node_turn x node_id) engine_input (λ _. Unit {0})
        (λ e u _ w. node_turn-Turns node_id e u w) es h (always es) v
    where
      always : (es : List NodeEvent) → All (λ _. Unit {0}) es
      always [] = tt
      always (e ∷ es) = (tt, always es)
