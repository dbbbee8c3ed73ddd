-- ===== src/Tests/Nodes.antt =====
-- The loops of nodes and the command line, at concrete inputs.
use mathlib.Core.List.{Mem, Nodup}
use p2p_pbft.Base.{
  ℕ, ◌≡◌, ◌≢◌, ◌≤◌, ◌<◌, ◌⊎◌, ◌↔◌, refl, ap, List, [], ◌∷◌, ◌++◌, none, some, length, Bytes, arith,
}
use p2p_pbft.Base.Flow.{ok, err, stop, after, outcome}
use p2p_pbft.Format.{text}
use p2p_pbft.Message.{consensus, ping, pre_prepare}
use p2p_pbft.Crypto.{KeyPair, from_seed, public_key_hex, public_key_bytes}
use p2p_pbft.Network.Peers.{network_new}
use p2p_pbft.Pbft.Config.{invalid_view, not_primary, config_new}
use p2p_pbft.Pbft.State.{PbftConsensus, state_new, consensus_new, replica_for}
use p2p_pbft.Pbft.Normal.{handle_pre_prepare}
use p2p_pbft.Pbft.Process.{process_all}
use p2p_pbft.Host.{Host}
use p2p_pbft.Host.Loop.{inputs_of}
use p2p_pbft.Node.{Node, NodeEvent, node_loop}
use p2p_pbft.Node.Engine.{engine_input, node_loop-Refines}
use p2p_pbft.Node
use p2p_pbft.Main.{
  MainEvent, arrived, submitted, outgoing_turn, replica_id, replicas_of, start_engine, start_keys,
  index_seed, found,
}
use p2p_pbft.Main.Replicas.{indexed_replicas, replicas_distinct}
use p2p_pbft.Main.Started.{lone_node_refuses}
use p2p_pbft.Main.Cli.{parse_line, submit, parse_line-submit, trim_end}
use p2p_pbft.Tests.Sample.{sample, node, pair, hello}
use p2p_pbft.Tests.Runs.{backup, proposal}
use p2p_pbft.Tests.Engine.{backup-Inv}

abbrev hosted : Host sample
hosted = record { consensus = backup; network = network_new (node 1) 8001; dispatched = 0 }

abbrev events : List NodeEvent
events =
    Node.arrived 1 (node 0) (consensus (pre_prepare (proposal hello)))
    ∷ Node.outgoing_turn
    ∷ Node.arrived 2 (node 2) (ping (node 2) 5)
    ∷ []

node_loop-Refines_example :
    (outcome (node_loop sample (node 1) events hosted) ≡ ok)
    × ((after (node_loop sample (node 1) events hosted)).consensus
        ≡ process_all sample (inputs_of engine_input events) hosted.consensus)
node_loop-Refines_example = node_loop-Refines sample (node 1) events hosted backup-Inv

abbrev stored : Node sample
stored = record { node_id = node 1; network = network_new (node 1) 8001; consensus = some backup }

abbrev indexed : ℕ → KeyPair sample
indexed i = from_seed sample (index_seed i)

gets_keys : (drawn i : ℕ) → start_keys sample drawn none (some i) ≡ found (indexed i)
unfolding start_keys
gets_keys drawn i = refl

indexed_replicas_example :
    let replicas = replicas_of sample (some 2) 4 (public_key_hex sample (indexed 2)) in
    (replicas ≡ replicas_of sample (some 3) 4 (public_key_hex sample (indexed 3)))
    × (length replicas ≡ 4)
    × Mem (public_key_hex sample (indexed 2)) replicas
    × Mem (public_key_hex sample (indexed 3)) replicas
    × ((l : ℕ) × (leader : KeyPair sample) × (l < 4)
        × (start_keys sample 7 none (some l) ≡ found leader)
        × (replica_for sample replicas 9 ≡ some (public_key_hex sample leader)))
indexed_replicas_example =
    indexed_replicas sample 7 8 4 2 3 9 (indexed 2) (indexed 3) (gets_keys 7 2) (gets_keys 8 3)
      (omega arith) (omega arith)

abbrev first_or_zero : Bytes → ℕ
first_or_zero [] = 0
first_or_zero (b ∷ _) = b

ids_differ : (i j : ℕ) → i < 256 → j < 256 → replica_id sample i ≡ replica_id sample j → i ≡ j
unfolding from_seed public_key_hex public_key_bytes
ids_differ i j h k e = let same_byte = ap first_or_zero e in omega arith

replicas_distinct_example : Nodup (replicas_of sample (some 1) 4 (replica_id sample 1)) ↔ (4 ≤ 256)
replicas_distinct_example = replicas_distinct sample 4 1 ids_differ

-- A node that is started without an index, as one of four.
abbrev pub lone : PbftConsensus sample
lone = consensus_new sample (
    state_new sample 0 (public_key_hex sample (pair 1)) (pair 1)
      (public_key_hex sample (pair 1) ∷ []) (config_new 4))

pub lone_started : start_engine sample 0 (pair 1) none 4 ≡ some lone
unfolding start_engine replicas_of
lone_started = refl

proposer_differs : node 0 ≢ public_key_hex sample (pair 1)
unfolding public_key_hex public_key_bytes
proposer_differs e = absurd (cc)

lone_node_refuses_example :
    let u = process_all sample [] lone in
    (handle_pre_prepare sample 5 (proposal hello) u ≡ stop (err invalid_view) u)
    ⊎ (handle_pre_prepare sample 5 (proposal hello) u ≡ stop (err not_primary) u)
lone_node_refuses_example =
    lone_node_refuses sample 0 5 (pair 1) 4 lone [] (proposal hello) lone_started proposer_differs

abbrev pub lone_events : List MainEvent
lone_events =
    submitted 1 hello
    ∷ arrived 2 (node 0) (consensus (pre_prepare (proposal hello)))
    ∷ outgoing_turn
    ∷ []

parse_line-submit_example :
    parse_line (text " " ++ (text "submit " ++ (text "a b" ++ text "  "))) ≡ submit (text "a b")
unfolding trim_end
parse_line-submit_example =
    parse_line-submit (text " ") (text "a b") (text "  ") (refl, tt) (refl, (refl, tt)) refl
      (λ e. absurd (cc))
