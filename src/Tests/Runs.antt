-- ===== src/Tests/Runs.antt =====
-- Runs of the engine.
use p2p_pbft.Base.{ℕ, ◌≡◌, refl, List, [], ◌∷◌, ℕ_discrete, bytes_discrete}
use p2p_pbft.Base.Map.{lookup, insert, contains, set_insert}
use p2p_pbft.Base.Flow.{flow}
use p2p_pbft.Format.{decimal, debug}
use p2p_pbft.Words.{to_le_bytes}
use p2p_pbft.Message.{
  Request, PrePrepare, Prepare, Commit, pre_prepare, prepare, commit, request_digest,
}
use p2p_pbft.Crypto.{sign, verify_signature}
use p2p_pbft.Crypto
use p2p_pbft.Pbft.Config.{config_new, quorum}
use p2p_pbft.Pbft.State.{
  ConsensusInstance, PbftState, PbftConsensus, Phase, state_new, consensus_new, instance_new,
  get_or_create_instance, put_instance, replica_for, primary,
}
use p2p_pbft.Pbft.State
use p2p_pbft.Pbft.Signing.{proposal_data, commit_data, verify_node_signature, node_id_to_public_key}
use p2p_pbft.Pbft.Advance.{
  try_advance_to_prepared, try_advance_to_committed, make_commit, commit_instance, to_execute,
  try_checkpoint, make_checkpoint,
}
use p2p_pbft.Pbft.Normal.{
  handle_pre_prepare, accept_pre_prepare, handle_prepare, accept_prepare, handle_commit,
  accept_commit, handle_request, lead, propose,
}
use p2p_pbft.Pbft.Process.{Input, received, process_message, process_input, process_all}
use p2p_pbft.Tests.Sample.{sample, node, pair, signature_of, four, hello}

-- Opens the whole engine.
unfoldable pub engine : Unit {0}
unfolding flow ℕ_discrete bytes_discrete lookup insert contains set_insert decimal debug to_le_bytes
    request_digest verify_signature Crypto.sign config_new quorum state_new consensus_new
    instance_new get_or_create_instance put_instance replica_for primary State.sign proposal_data
    commit_data verify_node_signature node_id_to_public_key try_advance_to_prepared
    try_advance_to_committed make_commit commit_instance to_execute try_checkpoint make_checkpoint
    handle_pre_prepare accept_pre_prepare handle_prepare accept_prepare handle_commit accept_commit
    handle_request lead propose process_message process_input process_all
engine = tt

-- Node 1 of four, a backup of view 0.
abbrev pub backup : PbftConsensus sample
backup = consensus_new sample (state_new sample 0 (node 1) (pair 1) four (config_new 4))

abbrev pub vote : ℕ → Request → Prepare
vote i r = record {
  view = 0;
  sequence = 1;
  digest = request_digest sample r;
  replica_id = node i;
  signature = signature_of i;
}

abbrev pub commit_vote : ℕ → Request → Commit
commit_vote i r = record {
  view = 0;
  sequence = 1;
  digest = request_digest sample r;
  replica_id = node i;
  signature = signature_of i;
}

abbrev pub proposal : Request → PrePrepare
proposal r = record {
  view = 0;
  sequence = 1;
  digest = request_digest sample r;
  request = r;
  primary_id = node 0;
  signature = signature_of 0;
}

abbrev pub normal_case : List (ℕ × Input)
normal_case =
    (1, received (pre_prepare (proposal hello)))
    ∷ (2, received (prepare (vote 0 hello)))
    ∷ (3, received (prepare (vote 2 hello)))
    ∷ (4, received (commit (commit_vote 0 hello)))
    ∷ (5, received (commit (commit_vote 2 hello)))
    ∷ []

normal_case_delivers : (process_all sample normal_case backup).committed ≡ hello ∷ []
unfolding engine
normal_case_delivers = refl
