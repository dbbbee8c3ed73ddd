-- ===== src/Pbft/Process.antt =====
-- src/pbft.rs: `process_message`; and a history of an engine, which src/main.rs feeds from its two
-- channels, the requests of the command line and the messages of the network.
use p2p_pbft.Base.{ℕ, List, [], ◌∷◌}
use p2p_pbft.Base.Flow.{pure, after}
use p2p_pbft.External.{External}
use p2p_pbft.Message.{
  Request, ConsensusMessage, request, pre_prepare, prepare, commit, reply, view_change, new_view,
  checkpoint,
}
use p2p_pbft.Pbft.State.{PbftConsensus, Engine}
use p2p_pbft.Pbft.Normal.{handle_request, handle_pre_prepare, handle_prepare, handle_commit}
use p2p_pbft.Pbft.Maintenance.{
  handle_checkpoint, handle_view_change, handle_new_view, start_view_change, check_timeout,
}

-- What reaches an engine: a message, a request of the command line, a check of the timeout, a wish for
-- a new view. The last two are operations of the engine that src/main.rs never calls.
pub data Input : Type 0 where
  received : ConsensusMessage → Input
  submitted : Request → Input
  timer suspicion : Input

module _ (x : External) where
  unfoldable pub process_message : ℕ → ConsensusMessage → Engine x (Unit {0})
  process_message now (request r) = handle_request x now r
  process_message now (pre_prepare pp) = handle_pre_prepare x now pp
  process_message now (prepare p) = handle_prepare x now p
  process_message now (commit c) = handle_commit x now c
  process_message now (reply _) = pure tt
  process_message now (view_change vc) = handle_view_change x vc
  process_message now (new_view nv) = handle_new_view x now nv
  process_message now (checkpoint cp) = handle_checkpoint x cp

  unfoldable pub process_input : ℕ → Input → Engine x (Unit {0})
  process_input now (received m) = process_message now m
  process_input now (submitted r) = handle_request x now r
  process_input now timer = check_timeout x now
  process_input now suspicion = start_view_change x

  -- The inputs come with the time at which each is handled; an error is logged and dropped.
  unfoldable pub process_all : List (ℕ × Input) → PbftConsensus x → PbftConsensus x
  process_all [] w = w
  process_all ((now, m) ∷ ms) w = process_all ms (after (process_input now m w))
