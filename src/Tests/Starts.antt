-- ===== src/Tests/Starts.antt =====
-- A node that starts alone, with a bootstrap peer that does not answer.
use p2p_pbft.Base.{◌≡◌, refl, true, [], ◌∷◌, Option, none, some, Bytes, arith}
use p2p_pbft.Base.Flow.{ok, outcome, after, flow}
use p2p_pbft.Crypto.{KeyPair, public_key_hex, from_seed}
use p2p_pbft.Network.Peers.{network_new, start_listener}
use p2p_pbft.Network.Connect.{connect_to_peer, greet}
use p2p_pbft.Pbft.State.{PbftConsensus}
use p2p_pbft.Pbft.Process.{process_all}
use p2p_pbft.Host.{Host}
use p2p_pbft.Host.Loop.{inputs_of}
use p2p_pbft.Main.{start_keys, start_engine, main_loop, found, replicas_of}
use p2p_pbft.Main.Engine.{main_input}
use p2p_pbft.Main.Start.{start_node, ran, connect_bootstrap, start_node-Refines}
use p2p_pbft.Tests.Sample.{sample, node, pair}
use p2p_pbft.Tests.Peers.{greetings}
use p2p_pbft.Tests.Nodes.{lone, lone_events}

abbrev nobody : Bytes → Option Bytes
nobody address = none

abbrev started_host : Host sample
started_host = record {
  consensus = lone;
  network = record (network_new (public_key_hex sample (pair 1)) 8001) {
    taken = true;
    listening = true;
  };
  dispatched = 0;
}

lone_start :
    start_node greetings nobody sample true 0 9 8001
      (some (node 1))
      ((b'a' ∷ []) ∷ [])
      4
      none
      lone_events
    ≡ ran (main_loop sample (public_key_hex sample (pair 1)) lone_events started_host)
unfolding flow start_node start_keys connect_bootstrap connect_to_peer greet start_engine from_seed
    replicas_of start_listener network_new
lone_start = refl

start_node-Refines_example :
    let t = main_loop sample (public_key_hex sample (pair 1)) lone_events started_host in
    (outcome t ≡ ok)
    × ((keypair : KeyPair sample) × (w : PbftConsensus sample) × (start_keys sample 9
            (some (node 1))
            none
          ≡ found keypair)
        × (start_engine sample 0 keypair none 4 ≡ some w)
        × ((after t).consensus ≡ process_all sample (inputs_of main_input lone_events) w))
start_node-Refines_example =
    start_node-Refines greetings nobody sample 0 8001 4 none ((b'a' ∷ []) ∷ []) lone_events
      (omega arith) (tt, (refl, (tt, tt))) true 9 (some (node 1))
      (main_loop sample (public_key_hex sample (pair 1)) lone_events started_host) lone_start
