-- ===== src/Pbft/Advance.antt =====
-- src/pbft.rs: how an instance moves on, `try_advance_to_prepared`, `try_advance_to_committed` and
-- `try_checkpoint`. A block that the source runs under one lock is a function of its own.
use p2p_pbft.Base.{
  ◌%◌, List, Bool, true, false, not, Option, none, some, ltb, ◌==◌, if◌then◌else◌, length,
  replicate, ℕ_discrete, bytes_discrete,
}
use p2p_pbft.Base.Map.{lookup, insert, is_some, contains, set_insert}
use p2p_pbft.Base.Flow.{◌>>=◌, ◌>>◌, pure, return_if, panic_if, unwrap, some_or_return, call}
use p2p_pbft.External.{External}
use p2p_pbft.Message.{
  SequenceNumber, Hash, Request, Commit, Checkpoint, ConsensusMessage, request_digest,
}
use p2p_pbft.Pbft.Config.{quorum}
use p2p_pbft.Pbft.State.{
  Phase, idle, pre_prepared, prepared, committed, Engine, read, write, broadcast_consensus, deliver,
  put_instance, sign,
}
use p2p_pbft.Pbft.Signing.{commit_data, checkpoint_data}

-- `==` on `Phase`.
abbrev pub phase_eq : Phase → Phase → Bool
phase_eq idle idle = true
phase_eq pre_prepared pre_prepared = true
phase_eq prepared prepared = true
phase_eq committed committed = true
phase_eq _ _ = false

-- `if let Some((_, digest)) = &request_to_commit { state.executed.insert(*digest); }`
abbrev pub mark_executed : Option (Request × Hash) → List Hash → List Hash
mark_executed none executed = executed
mark_executed (some (_, digest)) executed = set_insert bytes_discrete digest executed

module _ (x : External) where
  unfoldable pub make_checkpoint : SequenceNumber → Engine x Checkpoint
  make_checkpoint sequence = do
    s ← read x (λ s. s)
    panic_if (s.config.checkpoint_interval == 0)
    return_if (not (sequence % s.config.checkpoint_interval == 0))
    let digest : Hash = replicate 32 0
    pure (record {
      sequence = sequence;
      digest = digest;
      replica_id = s.node_id;
      signature = sign x s (checkpoint_data sequence digest);
    })

  unfoldable pub try_checkpoint : SequenceNumber → Engine x (Unit {0})
  try_checkpoint sequence = do
    checkpoint ← make_checkpoint sequence
    broadcast_consensus x (ConsensusMessage.checkpoint checkpoint)

  -- The request that is executed now, with its digest.
  unfoldable pub to_execute : List Hash → Option Request → Option (Request × Hash)
  to_execute executed none = none
  to_execute executed (some r) =
      if contains bytes_discrete (request_digest x r) executed
      then none
      else some (r, request_digest x r)

  unfoldable pub commit_instance : SequenceNumber → Engine x (Option (Request × Hash))
  commit_instance sequence = do
    s ← read x (λ s. s)
    i ← some_or_return (lookup ℕ_discrete sequence s.log)
    return_if (not (phase_eq i.phase prepared))
    return_if (ltb (length i.commits) (quorum s.config))
    let request_to_commit = to_execute s.executed i.request
    write x (put_instance x sequence (record i { phase = committed }))
    write x (λ s. record s { executed = mark_executed request_to_commit s.executed })
    pure request_to_commit

  -- What follows outside the lock.
  abbrev pub execute : SequenceNumber → Option (Request × Hash) → Engine x (Unit {0})
  execute sequence none = pure tt
  execute sequence (some (r, _)) = do deliver x r; call (try_checkpoint sequence)

  unfoldable pub try_advance_to_committed : SequenceNumber → Engine x (Unit {0})
  try_advance_to_committed sequence = do
    request_to_commit ← commit_instance sequence
    execute sequence request_to_commit

  unfoldable pub make_commit : SequenceNumber → Engine x Commit
  make_commit sequence = do
    s ← read x (λ s. s)
    i ← some_or_return (lookup ℕ_discrete sequence s.log)
    return_if (not (is_some i.pre_prepare))
    return_if (not (phase_eq i.phase pre_prepared))
    return_if (ltb (length i.prepares) (quorum s.config))
    digest ← unwrap i.digest
    let commit : Commit = record {
      view = i.view;
      sequence = sequence;
      digest = digest;
      replica_id = s.node_id;
      signature = sign x s (commit_data i.view sequence digest);
    }
    write x (
        put_instance x sequence (record i {
          phase = prepared;
          commits = insert bytes_discrete s.node_id commit i.commits;
        }))
    pure commit

  unfoldable pub try_advance_to_prepared : SequenceNumber → Engine x (Unit {0})
  try_advance_to_prepared sequence = do
    commit ← make_commit sequence
    broadcast_consensus x (ConsensusMessage.commit commit)
    call (try_advance_to_committed sequence)
