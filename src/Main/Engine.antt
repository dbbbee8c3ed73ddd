-- ===== src/Main/Engine.antt =====
-- src/main.rs, the main loop against the engine alone.
use p2p_pbft.Base.{ℕ, ◌≡◌, List, [], ◌∷◌, Bool, true, false}
use p2p_pbft.Base.Flow.{ok, panic_if, ◌>>◌, flow, after, outcome}
use p2p_pbft.External.{External}
use p2p_pbft.Message.{NodeId, consensus, ping, pong, handshake, handshake_ack}
use p2p_pbft.Network.Connect.{slice_panics}
use p2p_pbft.Pbft.State.{PbftConsensus}
use p2p_pbft.Pbft.Process.{Input, received, process_message, process_input, process_all}
use p2p_pbft.Pbft.Process
use p2p_pbft.Pbft.Invariant.{Inv}
use p2p_pbft.Pbft.Safety.{process_input-Inv}
use p2p_pbft.Host.{Host, Loop}
use p2p_pbft.Host.Loop.{
  Turns, logged-Turns, dispatch-Turns, send_pong-Turns, nothing-Turns, All, inputs_of,
  run_loop-Refines,
}
use p2p_pbft.Main.{MainEvent, submitted, arrived, outgoing_turn, main_message, main_turn, main_loop}

-- The requests and the messages for the engine.
abbrev pub main_input : MainEvent → List (ℕ × Input)
main_input (submitted now r) = (now, Process.submitted r) ∷ []
main_input (arrived now peer_id (consensus m)) = (now, received m) ∷ []
main_input _ = []

-- A consensus message comes from a peer whose id the log line can slice.
abbrev pub Loggable : MainEvent → Type 0
Loggable (arrived now peer_id (consensus m)) = slice_panics peer_id ≡ false
Loggable _ = Unit {0}

module _ (x : External) where
  logs_and_processes :
      (p : Bool) (m : Loop x) (w : PbftConsensus x) (h : Host x)
      → p ≡ false
      → Turns x w (m h)
      → Turns x w ((panic_if p >> m) h)
  unfolding flow
  logs_and_processes true m w h e t = absurd (cc)
  logs_and_processes false m w h e t = t

  pub main_turn-Turns :
      (node_id : NodeId) (e : MainEvent) (h : Host x)
      → Loggable e
      → Inv x h.consensus
      → Turns x (process_all x (main_input e) h.consensus) (main_turn x node_id e h)
  unfolding flow main_turn main_message process_all process_input
  main_turn-Turns node_id (submitted now r) h q v =
      logged-Turns x _ h (process_input-Inv x now (Process.submitted r) h.consensus v).1
  main_turn-Turns node_id (arrived now peer_id (consensus m)) h q v =
      logs_and_processes (slice_panics peer_id) _ _ h q (
        logged-Turns x (process_message x now m) h
          (process_input-Inv x now (received m) h.consensus v).1)
  main_turn-Turns node_id (arrived now peer_id (ping _ timestamp)) h q v =
      send_pong-Turns x peer_id node_id timestamp h
  main_turn-Turns node_id (arrived now peer_id (pong _ _)) h q v = nothing-Turns x h
  main_turn-Turns node_id (arrived now peer_id (handshake _ _)) h q v = nothing-Turns x h
  main_turn-Turns node_id (arrived now peer_id (handshake_ack _ _)) h q v = nothing-Turns x h
  main_turn-Turns node_id outgoing_turn h q v = dispatch-Turns x h

  -- From an engine that meets the invariant, if each consensus message comes from a peer whose id the
  -- log line can slice, the main loop ends only with its channels, and its engine is the engine that gets
  -- the requests of the command line and the consensus messages in the same order and nothing else.
  pub main_loop-Refines :
      (node_id : NodeId) (es : List MainEvent) (h : Host x)
      → All Loggable es
      → Inv x h.consensus
      → (outcome (main_loop x node_id es h) ≡ ok)
        × ((after (main_loop x node_id es h)).consensus
            ≡ process_all x (inputs_of main_input es) h.consensus)
  unfolding main_loop
  main_loop-Refines node_id es h q v =
      run_loop-Refines x (main_turn x node_id) main_input Loggable (main_turn-Turns node_id) es h q
        v
