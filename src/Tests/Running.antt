-- ===== src/Tests/Running.antt =====
-- A node in its main loop: a reader puts a proposal into the channel, and the loop takes it.
use p2p_pbft.Base.{◌≡◌, refl, sym, subst, List, [], ◌∷◌, some, take}
use p2p_pbft.Base.Map.{remove}
use p2p_pbft.Base.Flow.{ok, outcome, after, flow}
use p2p_pbft.Message.{NetworkMessage, consensus, pre_prepare}
use p2p_pbft.Network.Frame.{Bincode, peer_reader, receive_message, read_exact}
use p2p_pbft.Words.{from_le_bytes}
use p2p_pbft.Network.Peers.{network_new, send_to_peer}
use p2p_pbft.Network.Peers
use p2p_pbft.Network.Connect.{serve_peer, forget_peer}
use p2p_pbft.Network.Channel.{came}
use p2p_pbft.Network.Table.{reader_ran}
use p2p_pbft.Pbft.Process.{process_all}
use p2p_pbft.Host.{Host, logged, dispatch, dispatch_one, send_outgoing}
use p2p_pbft.Host.Loop.{inputs_of}
use p2p_pbft.Main.{MainEvent, main_turn, main_message}
use p2p_pbft.Main.Engine.{main_input}
use p2p_pbft.Main.Running.{
  Running, Happening, requested, receives, sends, network, running, running_turn, on_host,
  receive_next,
}
use p2p_pbft.Main.Running.Channel.{arrived_of, submitted_of, requests_of, AllSliceable}
use p2p_pbft.Main.Running.Order.{running-InOrder}
use p2p_pbft.Tests.Sample.{sample, node, bye, hello}
use p2p_pbft.Tests.Runs.{engine, backup, proposal}
use p2p_pbft.Tests.Engine.{backup-Inv}

abbrev proposed : NetworkMessage
proposed = consensus (pre_prepare (proposal hello))

abbrev proposals_only : Bincode
proposals_only = record { serialize = λ _. some (4 ∷ []); deserialize = λ _. some proposed }

abbrev hosted : Host sample
hosted = record { consensus = backup; network = network_new (node 1) 8001; dispatched = 0 }

abbrev happenings : List Happening
happenings =
    network (reader_ran 5 (node 0) (1 ∷ 0 ∷ 0 ∷ 0 ∷ 4 ∷ []))
    ∷ requested 1 bye
    ∷ receives 2
    ∷ sends
    ∷ []

abbrev ended : Running sample
ended =
    after (running proposals_only sample (node 1) happenings (record { host = hosted; read = 0 }))

has_come : came ended.host.network ≡ (node 0, proposed) ∷ []
unfolding flow engine running running_turn on_host main_turn logged receive_next serve_peer
    forget_peer peer_reader receive_message read_exact from_le_bytes network_new main_message
    dispatch dispatch_one send_outgoing send_to_peer Peers.broadcast remove
has_come = refl

ids_fit : AllSliceable (came ended.host.network)
ids_fit = subst AllSliceable (sym has_come) (refl, tt)

running-InOrder_example :
    let t =
      running proposals_only sample (node 1) happenings (record { host = hosted; read = 0 }) in
    (outcome t ≡ ok)
    × ((events : List MainEvent) × ((after t).host.consensus
          ≡ process_all sample (inputs_of main_input events) backup)
        × (arrived_of events ≡ take (after t).read (came (after t).host.network))
        × (submitted_of events ≡ requests_of happenings))
running-InOrder_example =
    running-InOrder proposals_only sample (node 1) happenings hosted ids_fit backup-Inv
