-- ===== src/Tests/Engine.antt =====
-- The theorems on histories of an engine, at a concrete one.
use mathlib.Core.List.{Nodup, Mem}
use p2p_pbft.Base.Map.{lookup}
use p2p_pbft.Base.{
  ℕ_discrete, Option, ◌≤◌, ◌<◌, ◌≡◌, ◌≢◌, refl, [], ◌∷◌, map, none, some, arith, length,
}
use p2p_pbft.Base.Flow.{err, panic, outcome, after}
use p2p_pbft.Message.{PrePrepare, request_digest, pre_prepare, prepare}
use p2p_pbft.Pbft.Config.{config_new, quorum, invalid_message}
use p2p_pbft.Pbft.State.{
  PbftConsensus, ConsensusInstance, committed, instance_new, pre_prepared, prepared,
}
use p2p_pbft.Pbft.Process.{received, process_message, process_input, process_all}
use p2p_pbft.Pbft.Invariant.{Ballot, Inv}
use p2p_pbft.Pbft.Safety.{process_input-Inv, fresh-Inv, delivered_once, committed_entry}
use p2p_pbft.Pbft.Refused.{SameAs, process_message-Refuses}
use p2p_pbft.Pbft.Progress.Always.{never_stalls}
use p2p_pbft.Tests.Sample.{sample, node, pair, four, hello, bye}
use p2p_pbft.Tests.Runs.{engine, backup, proposal, vote, normal_case}

interval_pos : 0 < (config_new 4).checkpoint_interval
unfolding config_new
interval_pos = omega arith

pub backup-Inv : Inv sample backup
backup-Inv = fresh-Inv sample 0 (node 1) (pair 1) four (config_new 4) (omega arith) interval_pos

process_input-Inv_example :
    Inv sample (after (process_input sample 1 (received (pre_prepare (proposal hello))) backup))
    × (outcome (process_input sample 1 (received (pre_prepare (proposal hello))) backup) ≢ panic)
process_input-Inv_example =
    process_input-Inv sample 1 (received (pre_prepare (proposal hello))) backup backup-Inv

delivered_once_example :
    let w = process_all sample normal_case backup in
    (w.state.executed ≡ map (request_digest sample) w.committed)
    × Nodup (map (request_digest sample) w.committed)
delivered_once_example =
    delivered_once sample 0 (node 1) (pair 1) four (config_new 4) (omega arith) interval_pos
      normal_case

or_new : Option ConsensusInstance → ConsensusInstance
or_new none = instance_new 0 0 0
or_new (some i) = i

-- The entry that the run leaves at sequence number 1.
final_entry : ConsensusInstance
unfolding or_new
final_entry = or_new (lookup ℕ_discrete 1 (process_all sample normal_case backup).state.log)

final_entry_stored :
    lookup ℕ_discrete 1 (process_all sample normal_case backup).state.log ≡ some final_entry
unfolding engine final_entry
final_entry_stored = refl

final_entry_committed : final_entry.phase ≡ committed
unfolding engine final_entry
final_entry_committed = refl

committed_entry_example :
    let w = process_all sample normal_case backup in
    (quorum w.state.config ≤ length final_entry.prepares)
    × (quorum w.state.config ≤ length final_entry.commits)
    × Ballot (λ p. p.replica_id) (λ p. p.sequence) 1 final_entry.prepares
    × Ballot (λ c. c.replica_id) (λ c. c.sequence) 1 final_entry.commits
    × ((pp : PrePrepare) × (final_entry.pre_prepare ≡ some pp)
        × (pp.sequence ≡ 1)
        × (final_entry.digest ≡ some (request_digest sample pp.request))
        × Mem (request_digest sample pp.request) (map (request_digest sample) w.committed))
committed_entry_example =
    committed_entry sample 0 (node 1) (pair 1) four (config_new 4) (omega arith) interval_pos
      normal_case 1 final_entry final_entry_stored final_entry_committed

never_stalls_example :
    let w = process_all sample normal_case backup in
    (final_entry.phase ≡ pre_prepared → length final_entry.prepares < quorum w.state.config)
    × (final_entry.phase ≡ prepared → length final_entry.commits < quorum w.state.config)
never_stalls_example =
    never_stalls sample 0 (node 1) (pair 1) four (config_new 4) normal_case 1 final_entry
      final_entry_stored

-- A prepare for another request than the one that is proposed.
abbrev pre_prepared_backup : PbftConsensus sample
pre_prepared_backup = process_all sample ((1, received (pre_prepare (proposal hello))) ∷ []) backup

another_refused :
    outcome (process_message sample 2 (prepare (vote 2 bye)) pre_prepared_backup)
    ≡ err invalid_message
unfolding engine
another_refused = refl

process_message-Refuses_example :
    SameAs sample pre_prepared_backup
      (after (process_message sample 2 (prepare (vote 2 bye)) pre_prepared_backup))
process_message-Refuses_example =
    process_message-Refuses sample 2 (prepare (vote 2 bye)) pre_prepared_backup invalid_message
      another_refused
