-- ===== src/Pbft/Invariant/Advance.antt =====
-- The invariant across src/pbft.rs: `try_advance_to_prepared`, `try_advance_to_committed`,
-- `try_checkpoint`.
use mathlib.Core.List.{Nodup-cons, Mem, mem-cons_self}
use p2p_pbft.Base.{
  ℕ, ◌≤◌, subst, sym, ◌≡◌, refl, ◌⊎◌, inl, inr, List, [], ◌∷◌, Option, none, some, ap, arith,
  length, ℕ_discrete, bytes_discrete,
}
use p2p_pbft.Base.Map.{contains_cases, set_insert_new, lookup, insert}
use p2p_pbft.Base.Flow.Rules.{
  Holds, Keeps, gets-Holds, bind-Holds, some_or_return-Holds, return_if-Holds, panic_if-Holds,
  unwrap-Holds, pure-Holds, modify-Holds, modify-Keeps, call-Holds,
}
use p2p_pbft.External.{External}
use p2p_pbft.Message.{NodeId, SequenceNumber, Hash, Request, request_digest}
use p2p_pbft.Pbft.Config.{PbftConfig, quorum}
use p2p_pbft.Pbft.State.{ConsensusInstance, PbftConsensus, prepared, committed, put_instance}
use p2p_pbft.Pbft.Advance.{
  make_checkpoint, try_checkpoint, to_execute, mark_executed, commit_instance, execute,
  try_advance_to_committed, make_commit, try_advance_to_prepared,
}
use p2p_pbft.Pbft.Invariant.Votes.{Ballot-insert}
use p2p_pbft.Pbft.Invariant.Defs.{InstanceOk, InvOf, InvWith, Inv, LogOk-insert, InstanceOk-mono}

module _ (x : External) where
  pub InvOf-put :
      {pending executed : List Hash} {replicas : List NodeId} {config : PbftConfig}
      {log : List (SequenceNumber × ConsensusInstance)} {delivered : List Request} (k : ℕ)
      (i : ConsensusInstance)
      → InvOf x pending replicas config log executed delivered
      → InstanceOk x (quorum config) executed k i
      → InvOf x pending replicas config (insert ℕ_discrete k i log) executed delivered
  InvOf-put k i v h = record {
    has_replicas = v.has_replicas;
    has_interval = v.has_interval;
    log_ok = LogOk-insert x _ k i v.log_ok h;
    once = v.once;
    in_step = v.in_step;
  }

  make_commit-Inv :
      (k : ℕ) (w : PbftConsensus x) → Inv x w → Holds (Inv x) (λ _. Inv x) (make_commit x k w)
  unfolding make_commit put_instance
  make_commit-Inv k w v = gets-Holds _ _ _ (
      some_or_return-Holds _ _ _ v λ i e. return_if-Holds _ _ _ v λ has_pp.
        return_if-Holds _ _ _ v λ is_pre_prepared. return_if-Holds _ _ _ v λ enough.
          let old = v.log_ok k i e in
          unwrap-Holds _ _ _ (ground (arith, old.proposal)) λ d e2. modify-Holds _ _ _ (
            pure-Holds _ _ _ (
              InvOf-put k _ v (record {
                numbered = old.numbered;
                proposal = ground (arith, old.proposal);
                prepares_ballot = old.prepares_ballot;
                commits_ballot = Ballot-insert k _ i.commits refl old.commits_ballot;
                has_prepares = λ h. ground arith;
                has_commits = λ h. cc;
                is_executed = λ h. cc;
              }))))

  make_checkpoint-Inv :
      (k : ℕ) (w : PbftConsensus x) → Inv x w → Holds (Inv x) (λ _. Inv x) (make_checkpoint x k w)
  unfolding make_checkpoint
  make_checkpoint-Inv k w v = gets-Holds _ _ _ (
      panic_if-Holds _ _ _ (ground (arith, v.has_interval))
        (return_if-Holds _ _ _ v λ due. pure-Holds _ _ _ v))

  try_checkpoint-Inv :
      (k : ℕ) (w : PbftConsensus x) → Inv x w → Keeps (Inv x) (try_checkpoint x k w)
  unfolding try_checkpoint
  try_checkpoint-Inv k w v =
      bind-Holds _ _ _ (make_checkpoint-Inv k w v) λ c u h. modify-Keeps _ _ _ h

  -- What is marked as executed and not yet delivered.
  abbrev waiting : Option (Request × Hash) → List Hash
  waiting none = []
  waiting (some (r, d)) = request_digest x r ∷ []

  -- A request that is left out has been executed; one that is taken has not.
  to_execute_cases :
      (executed : List Hash) (r : Request)
      → ((to_execute x executed (some r) ≡ none) × Mem (request_digest x r) executed)
        ⊎ ((to_execute x executed (some r) ≡ some (r, request_digest x r))
            × (¬ Mem (request_digest x r) executed))
  unfolding to_execute
  to_execute_cases executed r = elim (contains_cases bytes_discrete (request_digest x r) executed) [
    | inl (m, e) ↦ inl (rw e, m)
    | inr (n, e) ↦ inr (rw e, n)
  ]

  -- A committed entry whose digest is executed keeps the condition on entries.
  commit_entry :
      {q k : ℕ} {executed executed' : List Hash} {i : ConsensusInstance}
      → InstanceOk x q executed k i
      → i.phase ≡ prepared
      → q ≤ length i.commits
      → ((d : Hash) → i.digest ≡ some d → Mem d executed')
      → InstanceOk x q executed' k (record i { phase = committed })
  commit_entry old p enough m = record {
    numbered = old.numbered;
    proposal = ground (arith, old.proposal);
    prepares_ballot = old.prepares_ballot;
    commits_ballot = old.commits_ballot;
    has_prepares = λ _. old.has_prepares (inl p);
    has_commits = λ _. enough;
    is_executed = λ _. m;
  }

  module _ (k : ℕ) (w : PbftConsensus x) (v : Inv x w) (i : ConsensusInstance)
      (e : lookup ℕ_discrete k w.state.log ≡ some i) (p : i.phase ≡ prepared)
      (enough : quorum w.state.config ≤ length i.commits) where
    abbrev CommitOk : Option Request → Type 0
    CommitOk request =
        let o = to_execute x w.state.executed request in
        InvOf x (waiting o) w.state.replicas w.state.config
          (insert ℕ_discrete k (record i { phase = committed }) w.state.log)
          (mark_executed o w.state.executed) w.committed

    commit_result :
        (r : Request)
        → ((d : Hash) → i.digest ≡ some d → request_digest x r ≡ d)
        → CommitOk (some r)
    commit_result r agree = elim (to_execute_cases w.state.executed r) [
      | inl (none_left, m) ↦ rw none_left (record {
        has_replicas = v.has_replicas;
        has_interval = v.has_interval;
        log_ok = LogOk-insert x w.state.log k _ v.log_ok (
            commit_entry (v.log_ok k i e) p enough
              λ d has. subst (λ y. Mem y w.state.executed) (agree d has) m);
        once = v.once;
        in_step = v.in_step;
      })
      | inr (left, fresh) ↦
          rw (left, set_insert_new bytes_discrete _ _ fresh)
            (record {
              has_replicas = v.has_replicas;
              has_interval = v.has_interval;
              log_ok =
                  LogOk-insert x w.state.log k _ (λ j i' e'. InstanceOk-mono x _ (v.log_ok j i' e'))
                    (commit_entry (v.log_ok k i e) p enough
                      λ d has. rw (← agree d has) mem-cons_self);
              once = Nodup-cons.1 (fresh, v.once);
              in_step = ap (◌∷◌ (request_digest x r)) v.in_step;
            })
    ]

    commit_request : CommitOk i.request
    commit_request = elim (v.log_ok k i e).proposal [
      | inl (is_idle, _, _, _) ↦ absurd (ground arith)
      | inr (pp, _, has_request, has_digest, _, _, agree) ↦
          subst CommitOk (sym has_request) (commit_result pp.request λ d has. ground arith)
    ]

  commit_instance-Inv :
      (k : ℕ) (w : PbftConsensus x)
      → Inv x w
      → Holds (Inv x) (λ o. InvWith x (waiting o)) (commit_instance x k w)
  unfolding commit_instance put_instance
  commit_instance-Inv k w v = gets-Holds _ _ _ (
      some_or_return-Holds _ _ _ v λ i e. return_if-Holds _ _ _ v λ is_prepared.
        return_if-Holds _ _ _ v λ enough. modify-Holds _ _ _ (
          modify-Holds _ _ _
            (pure-Holds _ _ _ (commit_request k w v i e (ground arith) (ground arith)))))

  execute-Inv :
      (k : ℕ) (o : Option (Request × Hash)) (w : PbftConsensus x)
      → InvWith x (waiting o) w
      → Keeps (Inv x) (execute x k o w)
  execute-Inv k none w v = pure-Holds _ _ _ v
  execute-Inv k (some (r, d)) w v = modify-Holds _ _ _ (
      call-Holds _ _ (
        try_checkpoint-Inv k _ (record {
          has_replicas = v.has_replicas;
          has_interval = v.has_interval;
          log_ok = v.log_ok;
          once = v.once;
          in_step = v.in_step;
        })))

  pub try_advance_to_committed-Inv :
      (k : ℕ) (w : PbftConsensus x) → Inv x w → Keeps (Inv x) (try_advance_to_committed x k w)
  unfolding try_advance_to_committed
  try_advance_to_committed-Inv k w v =
      bind-Holds _ _ _ (commit_instance-Inv k w v) λ o u h. execute-Inv k o u h

  pub try_advance_to_prepared-Inv :
      (k : ℕ) (w : PbftConsensus x) → Inv x w → Keeps (Inv x) (try_advance_to_prepared x k w)
  unfolding try_advance_to_prepared
  try_advance_to_prepared-Inv k w v =
      bind-Holds _ _ _ (make_commit-Inv k w v)
        λ c u h. modify-Holds _ _ _ (call-Holds _ _ (try_advance_to_committed-Inv k _ h))
