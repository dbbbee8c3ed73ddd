-- ===== src/Pbft/Gathered.antt =====
-- src/pbft.rs: the checkpoint messages that an engine holds, over every history.
use mathlib.Core.List.{Mem, mem-cons_of_mem, mem-cons_self}
use mathlib.Core.Logic.{ite}
use p2p_pbft.Base.{
  ℕ, sym, ◌∙◌, ◌≢◌, subst, Bool, true, false, if◌then◌else◌, ◌≡◌, refl, List, [], ◌∷◌, some, leb,
  ℕ_discrete, bytes_discrete, arith,
}
use p2p_pbft.Base.Map.{lookup, insert, retain, lookup-insert, lookup-retain}
use p2p_pbft.Base.Flow.Stays.{Stays, stays_rules}
use p2p_pbft.External.{External}
use p2p_pbft.Message.{NodeId, Checkpoint, NewView, checkpoint}
use p2p_pbft.Crypto.{KeyPair}
use p2p_pbft.Pbft.Config.{PbftConfig}
use p2p_pbft.Pbft.State.{state_new, consensus_new}
use p2p_pbft.Pbft.Maintenance.{entry, record_message, handle_checkpoint, handle_new_view, stabilize}
use p2p_pbft.Pbft.Process.{Input, received, process_all}
use p2p_pbft.Pbft.Invariant.Votes.{Ballot, Ballot-nil, Ballot-insert}
use p2p_pbft.Pbft.Frame.{
  Fixed, Kept, handle_request-Kept, handle_pre_prepare-Kept, handle_prepare-Kept,
  handle_commit-Kept, handle_view_change-Kept, start_view_change-Kept, check_timeout-Kept,
}
use p2p_pbft.Pbft.Histories.{Handled, Maintained, AllAdmitted, process_all-Stays}

-- Messages for a sequence number: at most one for each replica id, stored under it, all with this sequence
-- number, and each of them one that came.
abbrev pub CheckpointVotes : (Checkpoint → Type 0) → ℕ → List (NodeId × Checkpoint) → Type 0
CheckpointVotes Came k votes =
    Ballot (λ c. c.replica_id) (λ c. c.sequence) k votes
    × ((id : NodeId) (c : Checkpoint) → lookup bytes_discrete id votes ≡ some c → Came c)

-- The message is among the inputs.
abbrev pub CameIn : List (ℕ × Input) → Checkpoint → Type 0
CameIn inputs c = (now : ℕ) × Mem (now, received (checkpoint c)) inputs

module _ {V : Type 0} where
  pub entry-record_message :
      (k : ℕ) (id : NodeId) (v : V) (m : List (ℕ × List (NodeId × V)))
      → entry k (record_message k id v m) ≡ insert bytes_discrete id v (entry k m)
  unfolding record_message
  entry-record_message k id v m =
      ground (arith, lookup-insert ℕ_discrete k k (insert bytes_discrete id v (entry k m)) m)

  entry-record_other :
      (j k : ℕ) (id : NodeId) (v : V) (m : List (ℕ × List (NodeId × V)))
      → j ≢ k
      → entry k (record_message j id v m) ≡ entry k m
  unfolding record_message
  entry-record_other j k id v m other =
      ground (arith, lookup-insert ℕ_discrete k j (insert bytes_discrete id v (entry j m)) m)

  pub entry-retain :
      (keep : ℕ → Bool) (k : ℕ) (m : List (ℕ × List (NodeId × V)))
      → entry k (retain keep m) ≡ (if keep k then entry k m else [])
  entry-retain keep k m = ground (arith, lookup-retain ℕ_discrete k keep m)

module _ (Came : Checkpoint → Type 0) where
  pub record Gathered (m : List (ℕ × List (NodeId × Checkpoint))) : Type 0 where
    pub votes : (k : ℕ) → CheckpointVotes Came k (entry k m)

  CheckpointVotes-insert :
      (c : Checkpoint) (votes : List (NodeId × Checkpoint))
      → Came c
      → CheckpointVotes Came c.sequence votes
      → CheckpointVotes Came c.sequence (insert bytes_discrete c.replica_id c votes)
  CheckpointVotes-insert c votes came (ballot, all) = (
    Ballot-insert c.sequence c votes refl ballot,
    λ id d e.
        elim (bytes_discrete c.replica_id id)
            as (λ o. ite o (some c) (lookup bytes_discrete id votes) ≡ some d → Came d) [
              | yes p ↦ λ e. let same_message : c ≡ d = cc in subst Came same_message came
              | no n ↦ λ e. all id d e
            ]
          (sym (lookup-insert bytes_discrete id c.replica_id c votes) ∙ e),
  )

  pub Gathered-record_message :
      (c : Checkpoint) (m : List (ℕ × List (NodeId × Checkpoint)))
      → Came c
      → Gathered m
      → Gathered (record_message c.sequence c.replica_id c m)
  Gathered-record_message c m came g = record {
    votes = λ k. elim (ℕ_discrete c.sequence k) [
      | yes p ↦
          subst (λ k. CheckpointVotes Came k (entry k (record_message c.sequence c.replica_id c m)))
            p
            (subst (CheckpointVotes Came c.sequence)
              (sym (entry-record_message c.sequence c.replica_id c m))
              (CheckpointVotes-insert c _ came (g.votes c.sequence)))
      | no n ↦
          subst (CheckpointVotes Came k) (sym (entry-record_other c.sequence k c.replica_id c m n))
            (g.votes k)
    ];
  }

  kept_votes :
      (b : Bool) (k : ℕ) (votes : List (NodeId × Checkpoint))
      → CheckpointVotes Came k votes
      → CheckpointVotes Came k (if b then votes else [])
  unfolding lookup
  kept_votes true k votes v = v
  kept_votes false k votes v = (Ballot-nil k, λ id c e. absurd (cc))

  Gathered-retain :
      (low : ℕ) (m : List (ℕ × List (NodeId × Checkpoint)))
      → Gathered m
      → Gathered (retain (λ seq. leb low seq) m)
  Gathered-retain low m g = record {
    votes = λ k.
        subst (CheckpointVotes Came k) (sym (entry-retain (λ seq. leb low seq) k m))
          (kept_votes (leb low k) k (entry k m) (g.votes k));
  }

module _ (Came Allowed : Checkpoint → Type 0) where
  pub Gathered-map :
      ((c : Checkpoint) → Came c → Allowed c)
      → (m : List (ℕ × List (NodeId × Checkpoint))) → Gathered Came m
      → Gathered Allowed m
  Gathered-map f m g = record { votes = λ k. ((g.votes k).0, λ id c e. f c ((g.votes k).1 id c e)) }

module _ (x : External) (Came : Checkpoint → Type 0) where
  abbrev InFixed : Fixed → Type 0
  InFixed (_, _, _, _, _, _, _, checkpoints, _, _) = Gathered Came checkpoints

  pub handle_checkpoint-Gathered :
      (c : Checkpoint) → Came c → Stays (Kept x InFixed) (handle_checkpoint x c)
  unfolding handle_checkpoint stabilize
  handle_checkpoint-Gathered c came =
      search (stays_rules, Gathered-record_message, Gathered-retain) depth 30

  handle_new_view-Gathered :
      (now : ℕ) (nv : NewView) → Stays (Kept x InFixed) (handle_new_view x now nv)
  unfolding handle_new_view
  handle_new_view-Gathered now nv = search stays_rules depth 30

module _ (x : External) (inputs : List (ℕ × Input)) where
  -- A checkpoint message is let in if it is among the inputs.
  AmongInputs : Input → Type 0
  AmongInputs i = (now : ℕ) × Mem (now, i) inputs

  handled-Gathered : Handled x (Kept x (InFixed x (CameIn inputs))) AmongInputs
  unfolding AmongInputs
  handled-Gathered = record {
    on_request = handle_request-Kept x (InFixed x (CameIn inputs));
    on_pre_prepare = λ now pp _. handle_pre_prepare-Kept x (InFixed x (CameIn inputs)) now pp;
    on_prepare = λ now p _. handle_prepare-Kept x (InFixed x (CameIn inputs)) now p;
    on_commit = handle_commit-Kept x (InFixed x (CameIn inputs));
    on_checkpoint = handle_checkpoint-Gathered x (CameIn inputs);
  }

  maintained-Gathered : Maintained x (Kept x (InFixed x (CameIn inputs)))
  maintained-Gathered = record {
    on_view_change = handle_view_change-Kept x (InFixed x (CameIn inputs));
    on_new_view = handle_new_view-Gathered x (CameIn inputs);
    on_suspicion =
        start_view_change-Kept x (InFixed x (CameIn inputs)) (λ _ _ _ _ _ _ _ _ _ _ _ _ h. h);
    on_timer = check_timeout-Kept x (InFixed x (CameIn inputs)) (λ _ _ _ _ _ _ _ _ _ _ _ _ h. h);
  }

  all_among :
      (is : List (ℕ × Input))
      → ((e : ℕ × Input) → Mem e is → Mem e inputs)
      → AllAdmitted AmongInputs is
  unfolding AmongInputs
  all_among [] sub = tt
  all_among ((now, i) ∷ is) sub =
      ((now, sub (now, i) mem-cons_self), all_among is (λ e m. sub e (mem-cons_of_mem _ m)))

  pub process_all-Gathered :
      (now : ℕ) (node_id : NodeId) (keypair : KeyPair x) (replicas : List NodeId)
      (config : PbftConfig)
      → Gathered
          (CameIn inputs)
          (process_all x inputs
            (consensus_new x (state_new x now node_id keypair replicas config))).state.checkpoints
  unfolding consensus_new state_new lookup
  process_all-Gathered now node_id keypair replicas config =
      process_all-Stays x handled-Gathered maintained-Gathered inputs
        (consensus_new x (state_new x now node_id keypair replicas config))
        (all_among inputs (λ e m. m))
        (record { votes = λ k. (Ballot-nil k, λ id c e. absurd (cc)) })
