-- ===== src/Pbft/Invariant/Normal.antt =====
-- The invariant across src/pbft.rs: `handle_request`, `handle_pre_prepare`, `handle_prepare`,
-- `handle_commit`.
use p2p_pbft.Base.{
  ℕ, ◌%◌, ◌≤◌, ◌≡◌, refl, ◌≢◌, inr, List, none, some, arith, length, get_elem?_total,
  bytes_discrete, Bytes,
}
use p2p_pbft.Base.Map.{insert, length-insert}
use p2p_pbft.Base.Flow.Rules.{
  Holds, Keeps, gets-Holds, bind-Holds, seq-Holds, guard-Holds, return_if-Holds, unwrap-Holds,
  pure-Holds, modify-Holds, modify-Keeps, branch-Holds, call-Holds,
}
use p2p_pbft.External.{External}
use p2p_pbft.Message.{NodeId, Request, PrePrepare, Prepare, Commit, request_digest}
use p2p_pbft.Pbft.State.{
  ConsensusInstance, PbftConsensus, pre_prepared, primary, replica_for, put_instance,
}
use p2p_pbft.Pbft.Normal.{
  propose, lead, handle_request, accept_pre_prepare, handle_pre_prepare, accept_prepare,
  handle_prepare, accept_commit, handle_commit,
}
use p2p_pbft.Pbft.Invariant.Votes.{Ballot-insert}
use p2p_pbft.Pbft.Invariant.Defs.{InstanceOk, Inv, InstanceOk-get}
use p2p_pbft.Pbft.Invariant.Advance.{
  InvOf-put, try_advance_to_committed-Inv, try_advance_to_prepared-Inv,
}

-- An insertion never shrinks a map.
length-le-insert :
    {V : Type 0} (q : ℕ) (k : NodeId) (v : V) (m : List (NodeId × V))
    → q ≤ length m
    → q ≤ length (insert bytes_discrete k v m)
length-le-insert q k v m h = ground (arith, length-insert bytes_discrete k v m)

module _ (x : External) where
  -- Every view has a replica that leads it.
  pub replica_exists :
      (w : PbftConsensus x) → Inv x w → (view : ℕ) → replica_for x w.state.replicas view ≢ none
  unfolding replica_for
  replica_exists w v view e =
      let n = length w.state.replicas in
      let (a, p) = get_elem?_total w.state.replicas (view % n) (grind (arith, v.has_replicas)) in cc

  pub primary_exists : (w : PbftConsensus x) → Inv x w → primary x w.state ≢ none
  unfolding primary
  primary_exists w v = replica_exists w v w.state.view

  -- An entry that has just been given a pre-prepare.
  proposed_entry :
      {q k : ℕ} {executed : List Bytes} {i : ConsensusInstance} (pp : PrePrepare) (p : Prepare)
      → InstanceOk x q executed k i
      → pp.sequence ≡ k
      → request_digest x pp.request ≡ pp.digest
      → p.sequence ≡ k
      → InstanceOk x q executed k (record i {
        request = some pp.request;
        digest = some pp.digest;
        pre_prepare = some pp;
        phase = pre_prepared;
        prepares = insert bytes_discrete p.replica_id p i.prepares;
      })
  proposed_entry pp p old numbered agree same_number = record {
    numbered = old.numbered;
    proposal = inr (pp, λ e. cc, refl, refl, refl, numbered, agree);
    prepares_ballot = Ballot-insert _ p _ same_number old.prepares_ballot;
    commits_ballot = old.commits_ballot;
    has_prepares = λ h. ground arith;
    has_commits = λ e. cc;
    is_executed = λ e. cc;
  }

  propose-Inv :
      (now : ℕ) (r : Request) (w : PbftConsensus x)
      → Inv x w
      → Holds (Inv x) (λ _. Inv x) (propose x now r w)
  unfolding propose put_instance
  propose-Inv now r w v = gets-Holds _ _ _ (
      return_if-Holds _ _ _ v λ fresh. modify-Holds _ _ _ (
        gets-Holds _ _ _ (
          guard-Holds _ _ _ _ v λ fits. modify-Holds _ _ _ (
            pure-Holds _ _ _ (
              InvOf-put x _ _ v
                (proposed_entry _ _ (InstanceOk-get x _ now _ v.log_ok) refl refl refl))))))

  lead-Inv :
      (now : ℕ) (r : Request) (w : PbftConsensus x) → Inv x w → Keeps (Inv x) (lead x now r w)
  unfolding lead
  lead-Inv now r w v = bind-Holds _ _ _ (propose-Inv now r w v) λ (pp, p) u h.
      modify-Holds _ _ _
        (modify-Holds _ _ _ (call-Holds _ _ (try_advance_to_prepared-Inv x pp.sequence _ h)))

  pub handle_request-Inv :
      (now : ℕ) (r : Request) (w : PbftConsensus x)
      → Inv x w
      → Keeps (Inv x) (handle_request x now r w)
  unfolding handle_request
  handle_request-Inv now r w v = gets-Holds _ _ _ (
      unwrap-Holds _ _ _ (primary_exists w v)
        λ p e. branch-Holds _ _ _ _ (λ _. lead-Inv now r w v) (λ _. modify-Keeps _ _ _ v))

  accept_pre_prepare-Inv :
      (now : ℕ) (pp : PrePrepare) (w : PbftConsensus x)
      → Inv x w
      → Holds (Inv x) (λ _. Inv x) (accept_pre_prepare x now pp w)
  unfolding accept_pre_prepare put_instance
  accept_pre_prepare-Inv now pp w v = gets-Holds _ _ _ (
      guard-Holds _ _ _ _ v λ in_view. unwrap-Holds _ _ _ (primary_exists w v) λ leader e.
        guard-Holds _ _ _ _ v λ from_leader. guard-Holds _ _ _ _ v λ in_window.
          guard-Holds _ _ _ _ v λ signed. guard-Holds _ _ _ _ v λ no_conflict.
            return_if-Holds _ _ _ v λ is_new. guard-Holds _ _ _ _ v λ agree. modify-Holds _ _ _ (
              modify-Holds _ _ _ (
                pure-Holds _ _ _ (
                  InvOf-put x _ _ v (
                    proposed_entry pp _ (InstanceOk-get x _ now _ v.log_ok) refl (ground arith)
                      refl)))))

  pub handle_pre_prepare-Inv :
      (now : ℕ) (pp : PrePrepare) (w : PbftConsensus x)
      → Inv x w
      → Keeps (Inv x) (handle_pre_prepare x now pp w)
  unfolding handle_pre_prepare
  handle_pre_prepare-Inv now pp w v =
      bind-Holds _ _ _ (accept_pre_prepare-Inv now pp w v)
        λ p u h. modify-Holds _ _ _ (call-Holds _ _ (try_advance_to_prepared-Inv x p.sequence _ h))

  accept_prepare-Inv :
      (now : ℕ) (p : Prepare) (w : PbftConsensus x)
      → Inv x w
      → Keeps (Inv x) (accept_prepare x now p w)
  unfolding accept_prepare put_instance
  accept_prepare-Inv now p w v =
      let old = InstanceOk-get x w.state now p.sequence v.log_ok in
      let u = InvOf-put x _ _ v old in
      gets-Holds _ _ _ (
        guard-Holds _ _ _ _ v λ in_view. guard-Holds _ _ _ _ v λ in_window.
          guard-Holds _ _ _ _ v λ signed. modify-Holds _ _ _ (
            guard-Holds _ _ _ _ u λ admitted. return_if-Holds _ _ _ u λ is_new. modify-Keeps _ _ _ (
              InvOf-put x _ _ u (record {
                numbered = old.numbered;
                proposal = old.proposal;
                prepares_ballot = Ballot-insert _ p _ refl old.prepares_ballot;
                commits_ballot = old.commits_ballot;
                has_prepares = λ h. length-le-insert _ _ _ _ (old.has_prepares h);
                has_commits = old.has_commits;
                is_executed = old.is_executed;
              }))))

  pub handle_prepare-Inv :
      (now : ℕ) (p : Prepare) (w : PbftConsensus x)
      → Inv x w
      → Keeps (Inv x) (handle_prepare x now p w)
  unfolding handle_prepare
  handle_prepare-Inv now p w v =
      seq-Holds _ _ _ (accept_prepare-Inv now p w v)
        λ u h. call-Holds _ _ (try_advance_to_prepared-Inv x p.sequence u h)

  accept_commit-Inv :
      (now : ℕ) (c : Commit) (w : PbftConsensus x)
      → Inv x w
      → Keeps (Inv x) (accept_commit x now c w)
  unfolding accept_commit put_instance
  accept_commit-Inv now c w v =
      let old = InstanceOk-get x w.state now c.sequence v.log_ok in
      let u = InvOf-put x _ _ v old in
      gets-Holds _ _ _ (
        guard-Holds _ _ _ _ v λ in_view. guard-Holds _ _ _ _ v λ in_window.
          guard-Holds _ _ _ _ v λ signed. modify-Holds _ _ _ (
            guard-Holds _ _ _ _ u λ admitted. return_if-Holds _ _ _ u λ is_new. modify-Keeps _ _ _ (
              InvOf-put x _ _ u (record {
                numbered = old.numbered;
                proposal = old.proposal;
                prepares_ballot = old.prepares_ballot;
                commits_ballot = Ballot-insert _ c _ refl old.commits_ballot;
                has_prepares = old.has_prepares;
                has_commits = λ h. length-le-insert _ _ _ _ (old.has_commits h);
                is_executed = old.is_executed;
              }))))

  pub handle_commit-Inv :
      (now : ℕ) (c : Commit) (w : PbftConsensus x)
      → Inv x w
      → Keeps (Inv x) (handle_commit x now c w)
  unfolding handle_commit
  handle_commit-Inv now c w v =
      seq-Holds _ _ _ (accept_commit-Inv now c w v)
        λ u h. call-Holds _ _ (try_advance_to_committed-Inv x c.sequence u h)
