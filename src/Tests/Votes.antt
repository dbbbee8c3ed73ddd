-- ===== src/Tests/Votes.antt =====
-- The theorems on what an engine proposes and votes for, at concrete histories.
use mathlib.Core.List.{Nodup}
use p2p_pbft.Base.{
  Bool, not, ◌==◌, true, false, ◌≤◌, ◌<◌, ℕ, ◌≡◌, ◌≢◌, refl, List, [], ◌∷◌, some, arith,
}
use p2p_pbft.Message.{pre_prepare, prepare, request_digest}
use p2p_pbft.Pbft.Config.{config_new, quorum}
use p2p_pbft.Pbft.State.{PbftConsensus, state_new, consensus_new, replica_for}
use p2p_pbft.Pbft.Process.{Input, received, submitted, process_all}
use p2p_pbft.Pbft.Proposals.{proposals}
use p2p_pbft.Pbft.Proposals.Once.{proposes_once}
use p2p_pbft.Pbft.Votes.{votes}
use p2p_pbft.Pbft.Votes.Once.{votes_once}
use p2p_pbft.Pbft.Votes.Leader.{leader_votes_once}
use p2p_pbft.Pbft.Quorum.{count}
use p2p_pbft.Pbft.Ballots.{voted_for}
use p2p_pbft.Pbft.Votes.Agreement.{sent_by, prepared_agree}
use p2p_pbft.Tests.Sample.{sample, node, pair, four, hello, bye}
use p2p_pbft.Tests.Runs.{engine, backup, proposal, vote}

-- The proposal comes three times, the last time for another request.
abbrev repeated : List (ℕ × Input)
repeated =
    (1, received (pre_prepare (proposal hello)))
    ∷ (2, received (pre_prepare (proposal hello)))
    ∷ (3, received (pre_prepare (proposal bye)))
    ∷ []

one_vote : votes 0 (process_all sample repeated backup).outgoing ≡ 1 ∷ []
unfolding engine
one_vote = refl

follows : replica_for sample four 0 ≢ some (node 1)
unfolding replica_for
follows e = absurd (ground arith)

votes_once_example : Nodup (votes 0 (process_all sample repeated backup).outgoing)
votes_once_example = votes_once sample 0 0 (node 1) (pair 1) four (config_new 4) repeated follows

-- Node 0, which leads view 0.
abbrev leader : PbftConsensus sample
leader = consensus_new sample (state_new sample 0 (node 0) (pair 0) four (config_new 4))

abbrev requests : List (ℕ × Input)
requests = (1, submitted hello) ∷ (2, submitted bye) ∷ (3, submitted hello) ∷ []

three_proposals : proposals (process_all sample requests leader).outgoing ≡ 3 ∷ 2 ∷ 1 ∷ []
unfolding engine
three_proposals = refl

proposes_once_example : Nodup (proposals (process_all sample requests leader).outgoing)
proposes_once_example =
    proposes_once sample 0 (node 0) (pair 0) four (config_new 4) requests (omega arith)

-- Nodes 1 to 3, which have all got the proposal of node 0.
abbrev is_leader : ℕ → Bool
is_leader i = i == 0

abbrev is_backup : ℕ → Bool
is_backup i = not (i == 0)

abbrev proposed_once : ℕ → List (ℕ × Input)
proposed_once i = (i, received (pre_prepare (proposal hello))) ∷ []

backups_follow : (i : ℕ) → i < 4 → is_leader i ≡ false → replica_for sample four 0 ≢ some (node i)
unfolding replica_for
backups_follow i lt other e = absurd (ground arith)

backups_vote :
    (i : ℕ)
    → i < 4
    → is_leader i ≡ false
    → is_backup i ≡ true
    → voted_for 0 1
        (request_digest sample hello)
        (sent_by sample four (config_new 4) 0 (node i) (pair i) (proposed_once i))
      ≡ true
unfolding engine
backups_vote i lt other yes_backup = refl

one_leader : count is_leader 4 ≤ (config_new 4).f
unfolding count config_new
one_leader = omega arith

three_backups : quorum (config_new 4) ≤ count is_backup 4
unfolding count config_new quorum
three_backups = omega arith

prepared_agree_example : request_digest sample hello ≡ request_digest sample hello
prepared_agree_example =
    prepared_agree sample 4 0 1 (request_digest sample hello) (request_digest sample hello) four
      (config_new 4) (λ i. 0) node pair proposed_once is_leader is_backup is_backup (omega arith)
      refl one_leader backups_follow three_backups three_backups backups_vote backups_vote

-- The leader gets requests, and a vote for its proposal.
abbrev leading : List (ℕ × Input)
leading = (1, submitted hello) ∷ (2, received (prepare (vote 1 hello))) ∷ (3, submitted bye) ∷ []

two_votes : votes 0 (process_all sample leading leader).outgoing ≡ 2 ∷ 1 ∷ []
unfolding engine
two_votes = refl

leads : replica_for sample four 0 ≡ some (node 0)
unfolding replica_for
leads = refl

leader_votes_once_example : Nodup (votes 0 (process_all sample leading leader).outgoing)
leader_votes_once_example =
    leader_votes_once sample 0 (node 0) 0 (pair 0) four (config_new 4) leading (omega arith)
      (tt, (tt, (tt, tt))) leads
