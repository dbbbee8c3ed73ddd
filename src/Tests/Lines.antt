-- ===== src/Tests/Lines.antt =====
-- The lines of the command line, at a node that is started alone.
use p2p_pbft.Base.{
  ℕ, ◌≡◌, ◌≢◌, refl, List, [], ◌∷◌, ◌++◌, none, true, Bytes, arith, take, bytes_discrete,
  ℕ_discrete,
}
use p2p_pbft.Base.Flow.{panic, outcome, after, flow}
use p2p_pbft.Format.{text}
use p2p_pbft.Crypto.{public_key_hex, public_key_bytes}
use p2p_pbft.Node.{request_new}
use p2p_pbft.Pbft.Process.{Input}
use p2p_pbft.Main.Cli.{
  Text, parse_line, trim, trim_end, trim_start, command_of, split_space, cli_request, as_bytes,
}
use p2p_pbft.Format.{decimal}
use p2p_pbft.Pbft.State.{state_new, consensus_new, primary, replica_for}
use p2p_pbft.Main.Terminal.{
  Terminal, cli_loop, print, println, utf8, run_peers, replica_line, replica_lines,
}
use p2p_pbft.Main.Terminal.Typed.{asked_by}
use p2p_pbft.Main.Terminal.Started.{lines_at, started_cli-Requests}
use p2p_pbft.Tests.Sample.{sample, node, pair}
use p2p_pbft.Tests.Nodes.{lone, lone_started}

abbrev typed : List (ℕ × List (ℕ × Input) × Text)
typed =
    (7, [], text " submit op ")
    ∷ (8, [], text "status")
    ∷ (9, [], text "peers")
    ∷ (10, [], text "quit")
    ∷ (11, [], text "submit later")
    ∷ []

abbrev terminal : Terminal
terminal = record { printed = []; sent = []; receiving = true }

abbrev plain : Text → Bytes
plain t = t

asks_once :
    asked_by {x = sample} (node 1) (lines_at sample lone typed)
    ≡ request_new 7 (node 1) (text "op") ∷ []
unfolding parse_line trim trim_end trim_start command_of bytes_discrete split_space cli_request
    as_bytes
asks_once = refl

peers_of_lone :
    (after (run_peers sample lone.state terminal)).printed
    ≡ utf8 "Replicas (1):\n  0: " ++ (take 16 (node 1) ++ utf8 "... (self) [PRIMARY]\n")
unfolding flow run_peers replica_lines replica_line println print primary replica_for decimal
    as_bytes consensus_new state_new public_key_hex public_key_bytes bytes_discrete ℕ_discrete
peers_of_lone = refl

-- The box around the status is drawn in UTF-8.
box : utf8 "═" ≡ 0xE2 ∷ 0x95 ∷ 0x90 ∷ []
unfolding as_bytes
box = refl

started_cli-Requests_example :
    let u = cli_loop sample plain [] (node 1) (lines_at sample lone typed) terminal in
    (outcome u ≢ panic) × ((after u).sent ≡ asked_by (node 1) (lines_at sample lone typed))
unfolding public_key_hex public_key_bytes
started_cli-Requests_example =
    started_cli-Requests sample plain [] 0 (pair 1) none 4 lone typed terminal lone_started
      (omega arith) refl refl
