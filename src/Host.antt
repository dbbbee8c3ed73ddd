-- ===== src/Host.antt =====
-- What the loops of src/node.rs and src/main.rs share: an engine beside a network, and the task that
-- takes what the engine sends from its channel. When that task runs is left to the sequence of events:
-- the channel is the trace of the engine's outgoing messages, of which the task has taken the
-- first `dispatched`.
pub mod Loop
use mathlib.Core.List.{reverse}
use p2p_pbft.Base.{ℕ, suc, List, [], ◌∷◌, Option, none, some, get_elem?}
use p2p_pbft.Base.Flow.{ok, err, panic, Flow, next, stop, ◌>>◌, pure, modify, after}
use p2p_pbft.External.{External}
use p2p_pbft.Message.{NodeId, NetworkMessage, pong}
use p2p_pbft.Network.Peers.{Network, send_to_peer}
use p2p_pbft.Network.Peers
use p2p_pbft.Pbft.Config.{PbftError}
use p2p_pbft.Pbft.State.{PbftConsensus, OutgoingMessage, broadcast, send_to, Engine}

pub record Host (x : External) : Type 0 where
  pub consensus : PbftConsensus x
  pub network : Network
  pub dispatched : ℕ

-- One turn of the loop over the outgoing messages: a broadcast goes to all peers, any other message to
-- its target, if that is a peer. Errors are logged.
unfoldable pub send_outgoing : OutgoingMessage → Network → Network
send_outgoing (broadcast msg) n = Peers.broadcast msg n
send_outgoing (send_to target msg) n = after (send_to_peer target msg n)

module _ (x : External) where
  -- Code of a loop. An error of the engine is logged, so only a panic ends it.
  abbrev pub Loop : Type 0
  Loop = Flow (Host x) PbftError (Unit {0})

  -- The task that takes outgoing messages takes the next one, or waits where there is none.
  unfoldable pub dispatch_one : Option OutgoingMessage → Host x → Host x
  dispatch_one none h = h
  dispatch_one (some m) h = record h {
    network = send_outgoing m h.network;
    dispatched = suc h.dispatched;
  }

  unfoldable pub dispatch : Loop
  unfolding dispatch_one
  dispatch = modify (λ h. dispatch_one (get_elem? (reverse h.consensus.outgoing) h.dispatched) h)

  -- `if let Err(e) = consensus.f(..).await { warn!(..) }`
  unfoldable pub logged : Engine x (Unit {0}) → Loop
  logged m h = elim (m h.consensus) [
    | next a w ↦ next tt (record h { consensus = w })
    | stop ok w ↦ next tt (record h { consensus = w })
    | stop (err e) w ↦ next tt (record h { consensus = w })
    | stop panic w ↦ stop panic (record h { consensus = w })
  ]

  -- The answer to a ping.
  unfoldable pub send_pong : NodeId → NodeId → ℕ → Loop
  send_pong peer_id node_id timestamp =
      modify (λ h. record h {
        network = after (send_to_peer peer_id (pong node_id timestamp) h.network);
      })

  -- A loop over what comes from the channels.
  unfoldable pub run_loop : {E : Type 0} → (E → Loop) → List E → Loop
  run_loop turn [] = pure tt
  run_loop turn (e ∷ es) = turn e >> run_loop turn es
