-- ===== src/Pbft/Progress/Always.antt =====
-- src/pbft.rs: after every handler, no entry waits that has enough votes.
use p2p_pbft.Base.{ℕ, ◌<◌, ◌≡◌, refl, List, some, length, ℕ_discrete}
use p2p_pbft.Base.Map.{lookup}
use p2p_pbft.Base.Flow.Stays.{Stays, stays_rules}
use p2p_pbft.Base.Flow.Ends.{
  Ends, bind-Ends, seq-Ends, call-Ends, gets-Ends, modify-Ends, branch-Ends, pure-Ends, write-Ends,
  Ends-Stays, Stays-of,
}
use p2p_pbft.External.{External}
use p2p_pbft.Message.{NodeId, Request, PrePrepare, Prepare, Commit, Checkpoint}
use p2p_pbft.Crypto.{KeyPair}
use p2p_pbft.Pbft.Config.{PbftConfig, quorum}
use p2p_pbft.Pbft.State.{
  ConsensusInstance, PbftConsensus, pre_prepared, prepared, state_new, consensus_new,
}
use p2p_pbft.Pbft.Advance.{try_advance_to_committed, try_advance_to_prepared}
use p2p_pbft.Pbft.Normal.{lead, handle_request, handle_pre_prepare, handle_prepare, handle_commit}
use p2p_pbft.Pbft.Maintenance.{stabilize, handle_checkpoint}
use p2p_pbft.Pbft.Process.{Input, process_all}
use p2p_pbft.Pbft.Histories.{Handled, Any, AllAdmitted-Any, process_all-Stays}
use p2p_pbft.Pbft.Quiet.{maintained, execute-Still}
use p2p_pbft.Pbft.Progress.{AllMove-retain}
use p2p_pbft.Pbft.Progress.Blocks.{
  All, MayPrepare, MayCommit, make_commit-MayCommit, commit_instance-All, accept_prepare-MayPrepare,
  accept_commit-MayCommit, accept_pre_prepare-MayPrepare, propose-MayPrepare,
}

module _ (x : External) where
  try_advance_to_committed-All :
      (k : ℕ) (w : PbftConsensus x)
      → MayCommit x k w
      → Ends (All x) (λ _. All x) (try_advance_to_committed x k w)
  unfolding try_advance_to_committed
  try_advance_to_committed-All k w m =
      bind-Ends _ _ w (commit_instance-All x k w m)
        (λ o u h. Ends-Stays _ u (execute-Still x (All x) k o) h)

  try_advance_to_prepared-All :
      (k : ℕ) (w : PbftConsensus x)
      → MayPrepare x k w
      → Ends (All x) (λ _. All x) (try_advance_to_prepared x k w)
  unfolding try_advance_to_prepared
  try_advance_to_prepared-All k w m =
      bind-Ends _ _ w (make_commit-MayCommit x k w m)
        (λ c u h. modify-Ends _ _ u (call-Ends _ _ (try_advance_to_committed-All k _ h)))

  lead-All : (now : ℕ) (r : Request) → Stays (All x) (lead x now r)
  unfolding lead
  lead-All now r = Stays-of _ (λ w h.
      bind-Ends _ _ w (propose-MayPrepare x now r w h) (λ (pp, p) u m.
        modify-Ends _ _ u
          (modify-Ends _ _ _ (call-Ends _ _ (try_advance_to_prepared-All pp.sequence _ m)))))

  handle_request-All : (now : ℕ) (r : Request) → Stays (All x) (handle_request x now r)
  unfolding handle_request
  handle_request-All now r = search (stays_rules, lead-All) depth 30

  handle_pre_prepare-All : (now : ℕ) (pp : PrePrepare) → Stays (All x) (handle_pre_prepare x now pp)
  unfolding handle_pre_prepare
  handle_pre_prepare-All now pp = Stays-of _ (λ w h.
      bind-Ends _ _ w (accept_pre_prepare-MayPrepare x now pp w h)
        (λ p u m. modify-Ends _ _ u (call-Ends _ _ (try_advance_to_prepared-All p.sequence _ m))))

  handle_prepare-All : (now : ℕ) (p : Prepare) → Stays (All x) (handle_prepare x now p)
  unfolding handle_prepare
  handle_prepare-All now p = Stays-of _ (λ w h.
      seq-Ends _ _ w (accept_prepare-MayPrepare x now p w h)
        (λ u m. call-Ends _ u (try_advance_to_prepared-All p.sequence u m)))

  handle_commit-All : (now : ℕ) (c : Commit) → Stays (All x) (handle_commit x now c)
  unfolding handle_commit
  handle_commit-All now c = Stays-of _ (λ w h.
      seq-Ends _ _ w (accept_commit-MayCommit x now c w h)
        (λ u m. call-Ends _ u (try_advance_to_committed-All c.sequence u m)))

  handle_checkpoint-All : (c : Checkpoint) → Stays (All x) (handle_checkpoint x c)
  unfolding handle_checkpoint stabilize
  handle_checkpoint-All c = Stays-of _ (λ w h. modify-Ends _ _ _ (
      gets-Ends _ _ _ (
        branch-Ends _ _ _ _ (λ stable. write-Ends _ _ _ (AllMove-retain _ _ h))
          (λ waits. pure-Ends _ _ _ h))))

  handled-All : Handled x (All x) Any
  handled-All = record {
    on_request = handle_request-All;
    on_pre_prepare = λ now pp _. handle_pre_prepare-All now pp;
    on_prepare = λ now p _. handle_prepare-All now p;
    on_commit = handle_commit-All;
    on_checkpoint = λ c _. handle_checkpoint-All c;
  }

  -- Over any history of a new engine, in whatever order the messages come, no entry of the log waits that
  -- has enough votes: one that waits for prepares has fewer of them than a quorum, and one that waits
  -- for commits has fewer of these.
  pub never_stalls :
      (now : ℕ) (node_id : NodeId) (keypair : KeyPair x) (replicas : List NodeId)
      (config : PbftConfig) (inputs : List (ℕ × Input)) (k : ℕ) (i : ConsensusInstance)
      → let w =
          process_all x inputs
            (consensus_new x (state_new x now node_id keypair replicas config)) in
        lookup ℕ_discrete k w.state.log ≡ some i
        → (i.phase ≡ pre_prepared → length i.prepares < quorum w.state.config)
          × (i.phase ≡ prepared → length i.commits < quorum w.state.config)
  unfolding consensus_new state_new lookup
  never_stalls now node_id keypair replicas config inputs k i e =
      let w = consensus_new x (state_new x now node_id keypair replicas config) in
      let all =
        process_all-Stays x handled-All (maintained x (All x)) inputs w (AllAdmitted-Any inputs)
          (record { at = λ j i e. absurd (cc) }) in
      let moves = all.at k i e in (moves.few_prepares refl, moves.few_commits refl)
