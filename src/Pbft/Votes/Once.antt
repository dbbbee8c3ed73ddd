-- ===== src/Pbft/Votes/Once.antt =====
-- src/pbft.rs: a backup votes once for each sequence number of a view.
use mathlib.Core.List.{Nodup, Nodup-nil, not-mem-nil}
use p2p_pbft.Base.{subst, ℕ, ◌<◌, ◌≡◌, ◌≢◌, refl, List, some, true, ltb, arith, ℕ_discrete}
use p2p_pbft.Base.Map.{retain, lookup-retain}
use p2p_pbft.Base.Flow.Stays.{Stays, Stays-bind, Stays-seq, Stays-call, stays_rules}
use p2p_pbft.Base.Flow.Ends.{
  Ends, bind-Ends, gets-Ends, modify-Ends, branch-Ends, unwrap-Ends, pure-Ends, write-Ends,
  Ends-Stays, Stays-of,
}
use p2p_pbft.External.{External}
use p2p_pbft.Message.{
  NodeId, Request, PrePrepare, Prepare, Commit, Checkpoint, ViewNumber, SequenceNumber,
}
use p2p_pbft.Crypto.{KeyPair}
use p2p_pbft.Pbft.Config.{PbftConfig}
use p2p_pbft.Pbft.State.{
  PbftConsensus, ConsensusInstance, state_new, consensus_new, primary, replica_for,
}
use p2p_pbft.Pbft.Advance.{make_commit, try_advance_to_committed, try_advance_to_prepared}
use p2p_pbft.Pbft.Normal.{lead, handle_request, handle_pre_prepare, handle_prepare, handle_commit}
use p2p_pbft.Pbft.Maintenance.{stabilize, handle_checkpoint}
use p2p_pbft.Pbft.Process.{Input, process_all}
use p2p_pbft.Pbft.Histories.{Handled, Any, AllAdmitted-Any, process_all-Stays}
use p2p_pbft.Pbft.Quiet.{maintained, execute-Still}
use p2p_pbft.Pbft.Votes.{
  VotedIn, votes, votes-voices, settled, Voted, make_commit-Voted, commit_instance-Voted,
  accept_prepare-Voted, accept_commit-Voted,
}
use p2p_pbft.Pbft.Votes.Cast.{propose-Fresh, accept_pre_prepare-Fresh}

module _ (x : External) (v : ViewNumber) where
  try_advance_to_committed-Voted : (k : ℕ) → Stays (Voted x v) (try_advance_to_committed x k)
  unfolding try_advance_to_committed
  try_advance_to_committed-Voted k =
      Stays-bind _ _ (Stays-of _ (commit_instance-Voted x v k)) (execute-Still x (VotedIn x v) k)

  make_commit-Stays : (k : ℕ) → Stays (Voted x v) (make_commit x k)
  make_commit-Stays k = Stays-of _ (make_commit-Voted x v k)

  try_advance_to_prepared-Voted : (k : ℕ) → Stays (Voted x v) (try_advance_to_prepared x k)
  unfolding try_advance_to_prepared
  try_advance_to_prepared-Voted k =
      search (stays_rules, make_commit-Stays, try_advance_to_committed-Voted) depth 30

  lead-Voted :
      (now : ℕ) (r : Request) (w : PbftConsensus x)
      → replica_for x w.state.replicas w.state.view ≡ some w.state.node_id
      → Voted x v w
      → Ends (Voted x v) (λ _. Voted x v) (lead x now r w)
  unfolding lead
  lead-Voted now r w leads h =
      bind-Ends _ _ w (propose-Fresh x v now r w leads h) (λ (pp, p) u fresh. modify-Ends _ _ _ (
        modify-Ends _ _ _
          (Ends-Stays _ _ (Stays-call _ (try_advance_to_prepared-Voted pp.sequence)) fresh)))

  handle_request-Voted : (now : ℕ) (r : Request) → Stays (Voted x v) (handle_request x now r)
  unfolding handle_request primary
  handle_request-Voted now r = Stays-of _ (λ w h. gets-Ends _ _ _ (
      unwrap-Ends _ _ _ h λ p found.
        branch-Ends _ _ _ _ (λ is_leader. lead-Voted now r w (ground arith) h)
          (λ other. write-Ends _ _ _ h)))

  handle_pre_prepare-Voted :
      (now : ℕ) (pp : PrePrepare) → Stays (Voted x v) (handle_pre_prepare x now pp)
  unfolding handle_pre_prepare
  handle_pre_prepare-Voted now pp = Stays-of _ (λ w h.
      bind-Ends _ _ w (accept_pre_prepare-Fresh x v now pp w h) (λ p u fresh.
        modify-Ends _ _ _
          (Ends-Stays _ _ (Stays-call _ (try_advance_to_prepared-Voted p.sequence)) fresh)))

  handle_prepare-Voted : (now : ℕ) (p : Prepare) → Stays (Voted x v) (handle_prepare x now p)
  unfolding handle_prepare
  handle_prepare-Voted now p =
      Stays-seq _ _ (Stays-of _ (accept_prepare-Voted x v now p))
        (Stays-call _ (try_advance_to_prepared-Voted p.sequence))

  handle_commit-Voted : (now : ℕ) (c : Commit) → Stays (Voted x v) (handle_commit x now c)
  unfolding handle_commit
  handle_commit-Voted now c =
      Stays-seq _ _ (Stays-of _ (accept_commit-Voted x v now c))
        (Stays-call _ (try_advance_to_committed-Voted c.sequence))

  -- What is at or below the checkpoint is settled by it, what is above keeps its entry.
  settled-retain :
      (low k j : ℕ) (log : List (SequenceNumber × ConsensusInstance))
      → low < k
      → settled low log j ≡ true
      → settled k (retain (λ seq. ltb k seq) log) j ≡ true
  settled-retain low k j log later h =
      ground (arith, lookup-retain ℕ_discrete j (λ seq. ltb k seq) log)

  handle_checkpoint-Voted : (c : Checkpoint) → Stays (Voted x v) (handle_checkpoint x c)
  unfolding handle_checkpoint stabilize
  handle_checkpoint-Voted c = Stays-of _ (λ w h. modify-Ends _ _ _ (
      gets-Ends _ _ _ (
        branch-Ends _ _ _ _
          (λ stable. write-Ends _ _ _ (record {
            follows = h.follows;
            in_step = refl;
            all_settled = λ j m.
                settled-retain w.state.low_watermark c.sequence j w.state.log
                  (ground (arith, h.in_step)) (h.all_settled j m);
            once = h.once;
          }))
          (λ waits. pure-Ends _ _ _ h))))

  handled-Voted : Handled x (Voted x v) Any
  handled-Voted = record {
    on_request = handle_request-Voted;
    on_pre_prepare = λ now pp _. handle_pre_prepare-Voted now pp;
    on_prepare = λ now p _. handle_prepare-Voted now p;
    on_commit = handle_commit-Voted;
    on_checkpoint = λ c _. handle_checkpoint-Voted c;
  }

  -- Over any history of a new engine, in a view that it does not lead it sends at most one prepare for
  -- each sequence number, whatever messages come in whatever order, from views before and after too.
  pub votes_once :
      (now : ℕ) (node_id : NodeId) (keypair : KeyPair x) (replicas : List NodeId)
      (config : PbftConfig) (inputs : List (ℕ × Input))
      → replica_for x replicas v ≢ some node_id
      → let w = consensus_new x (state_new x now node_id keypair replicas config) in
        Nodup (votes v (process_all x inputs w).outgoing)
  unfolding consensus_new state_new
  votes_once now node_id keypair replicas config inputs other =
      let w = consensus_new x (state_new x now node_id keypair replicas config) in
      let h : Voted x v w = record {
        follows = other;
        in_step = refl;
        all_settled = λ k m. absurd (not-mem-nil m);
        once = Nodup-nil;
      } in
      let kept =
        process_all-Stays x handled-Voted (maintained x (VotedIn x v)) inputs w
          (AllAdmitted-Any inputs) h in
      subst Nodup (votes-voices v (process_all x inputs w).outgoing) kept.once
