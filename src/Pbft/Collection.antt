-- ===== src/Pbft/Collection.antt =====
-- src/pbft.rs, `handle_checkpoint`: what a stable checkpoint removes from the log.
use p2p_pbft.Base.{
  ℕ, ◌≤◌, ◌<◌, ◌≡◌, refl, ◌⊎◌, inl, inr, ◌&&◌, if◌then◌else◌, none, some, List, [], ap, subst, sym,
  ◌∙◌, bytes_discrete, ltb, leb, arith, length, ℕ_discrete, Bool-cases,
}
use p2p_pbft.Base.Map.{lookup, insert, lookup-insert, lookup-retain}
use p2p_pbft.Base.Flow.{flow, after}
use p2p_pbft.External.{External}
use p2p_pbft.Message.{NodeId, Checkpoint}
use p2p_pbft.Pbft.Config.{PbftConfig, quorum}
use p2p_pbft.Crypto.{KeyPair}
use p2p_pbft.Pbft.State.{PbftConsensus, state_new, consensus_new}
use p2p_pbft.Pbft.Process.{Input, process_all}
use p2p_pbft.Pbft.Gathered.{
  CheckpointVotes, CameIn, Gathered-map, entry-record_message, entry-retain,
  handle_checkpoint-Gathered, process_all-Gathered,
}
use p2p_pbft.Pbft.Maintenance.{entry, record_message, handle_checkpoint, stabilize}

keeps_own : {A : Type 0} (k : ℕ) (votes : List A) → (if leb k k then votes else []) ≡ votes
keeps_own k votes = ground arith

module _ (x : External) where
  -- What the engine does with a checkpoint message: nothing is executed or delivered; either the log and
  -- the stable checkpoint stay, as the checkpoint is not later or has too few votes, or it is
  -- later, has enough votes and becomes stable, and the log loses the entries up to it and no others.
  abbrev pub Collected : Checkpoint → PbftConsensus x → PbftConsensus x → ℕ → Type 0
  Collected c w u k =
      let votes = length (entry c.sequence u.state.checkpoints) in
      (u.state.executed ≡ w.state.executed)
      × (u.committed ≡ w.committed)
      × (((u.state.stable_checkpoint ≡ w.state.stable_checkpoint)
            × (lookup ℕ_discrete k u.state.log ≡ lookup ℕ_discrete k w.state.log)
            × ((votes < quorum w.state.config) ⊎ (c.sequence ≤ w.state.stable_checkpoint)))
          ⊎ ((w.state.stable_checkpoint < c.sequence)
              × (quorum w.state.config ≤ votes)
              × (u.state.stable_checkpoint ≡ c.sequence)
              × (lookup ℕ_discrete k u.state.log
                  ≡ (if ltb c.sequence k then lookup ℕ_discrete k w.state.log else none))))

  -- What is held for the sequence number is what was recorded.
  entry-handle_checkpoint :
      (c : Checkpoint) (w : PbftConsensus x)
      → entry c.sequence (after (handle_checkpoint x c w)).state.checkpoints
        ≡ insert bytes_discrete c.replica_id c (entry c.sequence w.state.checkpoints)
  unfolding flow handle_checkpoint stabilize
  entry-handle_checkpoint c w =
      let received = record_message c.sequence c.replica_id c w.state.checkpoints in
      let recorded = entry-record_message c.sequence c.replica_id c w.state.checkpoints in
      elim (Bool-cases (
        leb (quorum w.state.config) (length (entry c.sequence received))
        && ltb w.state.stable_checkpoint c.sequence)) [
          | inl is_stable ↦ rw (is_stable) (
              entry-retain (λ seq. leb c.sequence seq) c.sequence received
              ∙ (keeps_own c.sequence (entry c.sequence received) ∙ recorded))
          | inr waits ↦ rw (waits) recorded
        ]

  collects :
      (c : Checkpoint) (w : PbftConsensus x) (k : ℕ)
      → Collected c w (after (handle_checkpoint x c w)) k
  unfolding flow handle_checkpoint stabilize
  collects c w k =
      let received = record_message c.sequence c.replica_id c w.state.checkpoints in
      let stable =
        leb (quorum w.state.config) (length (entry c.sequence received))
        && ltb w.state.stable_checkpoint c.sequence in
      elim (Bool-cases stable) [
        | inl is_stable ↦
            let kept =
              entry-retain (λ seq. leb c.sequence seq) c.sequence received
              ∙ keeps_own c.sequence (entry c.sequence received) in
            rw (is_stable) (
              refl,
              refl,
              inr (
                ground arith,
                subst (λ votes. quorum w.state.config ≤ length votes) (sym kept) (ground arith),
                refl,
                lookup-retain ℕ_discrete k (λ seq. ltb c.sequence seq) w.state.log,
              ),
            )
        | inr waits ↦ rw (waits) (refl, refl, inl (refl, refl, ground arith))
      ]

  -- The message itself is held afterwards.
  holds_it :
      (c : Checkpoint) (w : PbftConsensus x)
      → lookup bytes_discrete c.replica_id
          (entry c.sequence (after (handle_checkpoint x c w)).state.checkpoints)
        ≡ some c
  holds_it c w =
      ap (lookup bytes_discrete c.replica_id) (entry-handle_checkpoint c w)
      ∙ ground (
        arith,
        lookup-insert bytes_discrete c.replica_id c.replica_id c
            (entry c.sequence w.state.checkpoints),
      )

  -- Over any history of a new engine, when a checkpoint message comes, the messages that the engine then
  -- holds for its sequence number are for this number, of distinct replica ids, each stored under the id
  -- that it bears, and came as inputs, this one among them. Nothing is executed or delivered. If they are
  -- fewer than a quorum or the checkpoint is not later than the stable one, the log and the stable
  -- checkpoint stay; if they are a quorum and it is later, it becomes stable, and the log loses the
  -- entries up to it and no others.
  pub handle_checkpoint-Collects :
      (now : ℕ) (node_id : NodeId) (keypair : KeyPair x) (replicas : List NodeId)
      (config : PbftConfig) (inputs : List (ℕ × Input)) (c : Checkpoint) (k : ℕ)
      → let w =
          process_all x inputs
            (consensus_new x (state_new x now node_id keypair replicas config)) in
        let u = after (handle_checkpoint x c w) in
        let votes = entry c.sequence u.state.checkpoints in
        CheckpointVotes (λ d. CameIn inputs d ⊎ (d ≡ c)) c.sequence votes
        × (lookup bytes_discrete c.replica_id votes ≡ some c)
        × Collected c w u k
  handle_checkpoint-Collects now node_id keypair replicas config inputs c k =
      let w =
        process_all x inputs (consensus_new x (state_new x now node_id keypair replicas config)) in
      let came = process_all-Gathered x inputs now node_id keypair replicas config in
      let held =
        (handle_checkpoint-Gathered x (λ d. CameIn inputs d ⊎ (d ≡ c)) c (inr refl)).at w
          (Gathered-map (CameIn inputs) _ (λ d. inl) _ came) in
      (held.votes c.sequence, holds_it c w, collects c w k)
