-- ===== src/Pbft/Safety.antt =====
-- src/pbft.rs, `process_message` and histories of messages: no panic, consistent entries, each request
-- delivered at most once.
use mathlib.Core.List.{Nodup, Nodup-nil, Mem}
use p2p_pbft.Base.{
  ℕ, ◌≤◌, ◌<◌, ◌≡◌, refl, ◌≢◌, inl, inr, List, [], ◌∷◌, map, some, subst, arith, length, ℕ_discrete,
}
use p2p_pbft.Base.Map.{lookup}
use p2p_pbft.Base.Flow.{panic, outcome, after}
use p2p_pbft.Base.Flow.Rules.{Keeps, Keeps-after, pure-Holds}
use p2p_pbft.External.{External}
use p2p_pbft.Message.{
  NodeId, PrePrepare, ConsensusMessage, request, pre_prepare, prepare, commit, reply, view_change,
  new_view, checkpoint, request_digest,
}
use p2p_pbft.Crypto.{KeyPair}
use p2p_pbft.Pbft.Config.{PbftConfig, quorum}
use p2p_pbft.Pbft.State.{ConsensusInstance, PbftConsensus, committed, state_new, consensus_new}
use p2p_pbft.Pbft.Process.{
  Input, received, submitted, timer, suspicion, process_message, process_input, process_all,
}
use p2p_pbft.Pbft.Invariant.{
  Ballot, Inv, handle_request-Inv, handle_pre_prepare-Inv, handle_prepare-Inv, handle_commit-Inv,
  handle_checkpoint-Inv, handle_view_change-Inv, handle_new_view-Inv, start_view_change-Inv,
  check_timeout-Inv,
}

module _ (x : External) where
  process_message-Keeps :
      (now : ℕ) (m : ConsensusMessage) (w : PbftConsensus x)
      → Inv x w
      → Keeps (Inv x) (process_message x now m w)
  unfolding process_message
  process_message-Keeps now (request r) w v = handle_request-Inv x now r w v
  process_message-Keeps now (pre_prepare pp) w v = handle_pre_prepare-Inv x now pp w v
  process_message-Keeps now (prepare p) w v = handle_prepare-Inv x now p w v
  process_message-Keeps now (commit c) w v = handle_commit-Inv x now c w v
  process_message-Keeps now (reply _) w v = pure-Holds _ _ _ v
  process_message-Keeps now (view_change vc) w v = handle_view_change-Inv x vc w v
  process_message-Keeps now (new_view nv) w v = handle_new_view-Inv x now nv w v
  process_message-Keeps now (checkpoint cp) w v = handle_checkpoint-Inv x cp w v

  process_input-Keeps :
      (now : ℕ) (i : Input) (w : PbftConsensus x)
      → Inv x w
      → Keeps (Inv x) (process_input x now i w)
  unfolding process_input
  process_input-Keeps now (received m) w v = process_message-Keeps now m w v
  process_input-Keeps now (submitted r) w v = handle_request-Inv x now r w v
  process_input-Keeps now timer w v = check_timeout-Inv x now w v
  process_input-Keeps now suspicion w v = start_view_change-Inv x w v

  -- From an engine that meets the invariant, handling any input, whether it is accepted or refused,
  -- keeps the invariant and does not panic.
  pub process_input-Inv :
      (now : ℕ) (i : Input) (w : PbftConsensus x)
      → Inv x w
      → Inv x (after (process_input x now i w)) × (outcome (process_input x now i w) ≢ panic)
  process_input-Inv now i w v = Keeps-after _ (process_input-Keeps now i w v)

  pub process_all-Inv :
      (inputs : List (ℕ × Input)) (w : PbftConsensus x) → Inv x w → Inv x (process_all x inputs w)
  unfolding process_all
  process_all-Inv [] w v = v
  process_all-Inv ((now, i) ∷ is) w v = process_all-Inv is _ (process_input-Inv now i w v).0

  module _ (now : ℕ) (node_id : NodeId) (keypair : KeyPair x) (replicas : List NodeId)
      (config : PbftConfig) (has_replicas : 0 < length replicas)
      (has_interval : 0 < config.checkpoint_interval) where
    abbrev fresh : PbftConsensus x
    fresh = consensus_new x (state_new x now node_id keypair replicas config)

    -- A new engine meets the invariant, if it has replicas and a checkpoint interval.
    pub fresh-Inv : Inv x fresh
    unfolding consensus_new state_new lookup
    fresh-Inv = record {
      has_replicas = has_replicas;
      has_interval = has_interval;
      log_ok = λ k i e. absurd (cc);
      once = Nodup-nil;
      in_step = refl;
    }

    -- After any history of a new engine with a replica list and a checkpoint interval that are not
    -- empty, what it has delivered is what it has marked as executed, in the same order, and no two
    -- delivered requests have the same digest.
    pub delivered_once :
        (inputs : List (ℕ × Input))
        → let w = process_all x inputs fresh in
          (w.state.executed ≡ map (request_digest x) w.committed)
          × Nodup (map (request_digest x) w.committed)
    delivered_once inputs =
        let v = process_all-Inv inputs fresh fresh-Inv in (v.in_step, subst Nodup v.in_step v.once)

    -- After any history of a new engine with a replica list and a checkpoint interval that are not
    -- empty, a committed entry of the log has as many prepares and commits as a quorum, each the vote of
    -- a different replica id for this sequence number, and holds a pre-prepare for its sequence number
    -- whose request has the digest of the entry; a request with this digest is delivered, which is
    -- another one if two requests have the digest.
    pub committed_entry :
        (inputs : List (ℕ × Input)) (k : ℕ) (i : ConsensusInstance)
        → let w = process_all x inputs fresh in
          lookup ℕ_discrete k w.state.log ≡ some i
          → i.phase ≡ committed
          → (quorum w.state.config ≤ length i.prepares)
            × (quorum w.state.config ≤ length i.commits)
            × Ballot (λ p. p.replica_id) (λ p. p.sequence) k i.prepares
            × Ballot (λ c. c.replica_id) (λ c. c.sequence) k i.commits
            × ((pp : PrePrepare) × (i.pre_prepare ≡ some pp)
                × (pp.sequence ≡ k)
                × (i.digest ≡ some (request_digest x pp.request))
                × Mem (request_digest x pp.request) (map (request_digest x) w.committed))
    committed_entry inputs k i e c =
        let v = process_all-Inv inputs fresh fresh-Inv in
        let entry = v.log_ok k i e in
        (
          entry.has_prepares (inr c),
          entry.has_commits c,
          entry.prepares_ballot,
          entry.commits_ballot,
          elim entry.proposal [
            | inl (is_idle, _, _, _) ↦ absurd (ground arith)
            | inr (pp, _, _, has_digest, has_pp, numbered, agree) ↦ (
              pp,
              has_pp,
              numbered,
              rw agree has_digest,
              subst (Mem _) v.in_step (entry.is_executed c _ (rw agree has_digest)),
            )
          ],
        )
