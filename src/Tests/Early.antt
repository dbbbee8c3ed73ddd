-- ===== src/Tests/Early.antt =====
-- Votes that come before the pre-prepare. Node 0 leads four nodes and is faulty: it proposes one request to
-- nodes 1 and 3 and, late, another one to node 2. Nodes 1, 2 and 3 run the code, and what they get in
-- the name of one of them has been sent by that one; nodes 1 and 2 deliver different requests at
-- sequence number 1.
use p2p_pbft.Base.{ℕ, ◌≡◌, refl, List, [], ◌∷◌}
use p2p_pbft.Message.{pre_prepare, prepare, commit, consensus}
use p2p_pbft.Pbft.Config.{config_new}
use p2p_pbft.Pbft.State.{broadcast, OutgoingMessage}
use p2p_pbft.Pbft.Process.{Input, received}
use p2p_pbft.Pbft.Cluster.{Replica, engine_of}
use p2p_pbft.Tests.Sample.{sample, node, pair, four, hello, bye}
use p2p_pbft.Tests.Runs.{engine, proposal, vote, commit_vote}

abbrev member : ℕ → List (ℕ × Input) → Replica sample
member i inputs = record { now = 0; id = node i; keypair = pair i; inputs = inputs }

abbrev at_one : List (ℕ × Input)
at_one =
    (1, received (pre_prepare (proposal hello)))
    ∷ (2, received (prepare (vote 0 hello)))
    ∷ (3, received (prepare (vote 3 hello)))
    ∷ (4, received (commit (commit_vote 0 hello)))
    ∷ (5, received (commit (commit_vote 3 hello)))
    ∷ []

abbrev at_three : List (ℕ × Input)
at_three =
    (1, received (pre_prepare (proposal hello)))
    ∷ (2, received (prepare (vote 0 hello)))
    ∷ (3, received (prepare (vote 1 hello)))
    ∷ []

abbrev at_two : List (ℕ × Input)
at_two =
    (1, received (prepare (vote 1 hello)))
    ∷ (2, received (commit (commit_vote 1 hello)))
    ∷ (3, received (pre_prepare (proposal bye)))
    ∷ (4, received (prepare (vote 0 bye)))
    ∷ (5, received (commit (commit_vote 0 bye)))
    ∷ []

-- The prepare and the commit of a node, the newest first.
abbrev both_votes : ℕ → List OutgoingMessage
both_votes i =
    broadcast (consensus (commit (commit_vote i hello)))
    ∷ broadcast (consensus (prepare (vote i hello)))
    ∷ []

one_votes : (engine_of sample four (config_new 4) (member 1 at_one)).outgoing ≡ both_votes 1
unfolding engine
one_votes = refl

three_votes : (engine_of sample four (config_new 4) (member 3 at_three)).outgoing ≡ both_votes 3
unfolding engine
three_votes = refl

one_delivers : (engine_of sample four (config_new 4) (member 1 at_one)).committed ≡ hello ∷ []
unfolding engine
one_delivers = refl

two_delivers_another : (engine_of sample four (config_new 4) (member 2 at_two)).committed ≡ bye ∷ []
unfolding engine
two_delivers_another = refl
