-- ===== src/Pbft/Ballots.antt =====
-- src/pbft.rs: where the prepares in the log come from: a message that was let in, or the replica itself,
-- which has then sent it.
pub mod Blocks
use p2p_pbft.Base.{
  ℕ, ◌≡◌, refl, sym, ap, subst, ◌⊎◌, inl, inr, List, [], ◌∷◌, Option, none, some, Bool, true, false,
  ◌&&◌, ◌||◌, ◌==◌, arith, same, ℕ_discrete, bytes_discrete, Option-cases,
}
use p2p_pbft.Base.Map.{lookup, insert, retain, lookup-insert, lookup-retain}
use p2p_pbft.External.{External}
use p2p_pbft.Message.{NodeId, SequenceNumber, ViewNumber, Hash, Prepare, consensus, prepare}
use p2p_pbft.Pbft.State.{
  OutgoingMessage, broadcast, ConsensusInstance, PbftState, PbftConsensus, instance_new,
  get_or_create_instance,
}
use p2p_pbft.Pbft.Quiet.{still}

-- Whether a prepare for the view, the sequence number and the digest was sent.
abbrev pub voted_for : ViewNumber → SequenceNumber → Hash → List OutgoingMessage → Bool
voted_for v k d [] = false
voted_for v k d (broadcast (consensus (prepare p)) ∷ out) =
    (p.view == v && p.sequence == k && same p.digest d) || voted_for v k d out
voted_for v k d (_ ∷ out) = voted_for v k d out

-- Which votes were sent.
abbrev pub Cast : Type 0
Cast = ViewNumber → SequenceNumber → Hash → Bool

abbrev pub cast_too : Prepare → Cast → Cast
cast_too p cast v k d = (p.view == v && p.sequence == k && same p.digest d) || cast v k d

module _ (Genuine : Prepare → Type 0) (me : NodeId) where
  -- The prepare that is stored under `id` in the entry at `k`.
  pub record VoteOk (cast : Cast) (k : ℕ) (id : NodeId) (p : Prepare) : Type 0 where
    pub own : p.replica_id ≡ id
    pub numbered : p.sequence ≡ k
    pub source : Genuine p ⊎ ((id ≡ me) × (cast p.view k p.digest ≡ true))

  pub record BallotOk (cast : Cast) (k : ℕ) (ballot : List (NodeId × Prepare)) : Type 0 where
    pub each :
        (id : NodeId) (p : Prepare) → lookup bytes_discrete id ballot ≡ some p → VoteOk cast k id p

  pub record BallotsOf (node_id : NodeId) (cast : Cast)
      (log : List (SequenceNumber × ConsensusInstance)) : Type 0 where
    pub is_me : node_id ≡ me
    pub all :
        (k : ℕ) (i : ConsensusInstance)
        → lookup ℕ_discrete k log ≡ some i
        → BallotOk cast k i.prepares

  abbrev pub BallotsIn : (x : External) → PbftConsensus x → Type 0
  BallotsIn x w = BallotsOf w.state.node_id (λ v k d. voted_for v k d w.outgoing) w.state.log

  abbrev pub Ballots : (x : External) → PbftConsensus x → Type 0
  Ballots x w = BallotsIn x (still x w)

  module _ {cast : Cast} where
    pub BallotOk-insert :
        {k : ℕ} (ballot : List (NodeId × Prepare)) (id : NodeId) (p : Prepare)
        → BallotOk cast k ballot
        → VoteOk cast k id p
        → BallotOk cast k (insert bytes_discrete id p ballot)
    BallotOk-insert {k} ballot id p old new = record {
      each = λ id' p' e. elim (bytes_discrete id id') [
        | yes same_id ↦
            let same_vote : p ≡ p' = ground (arith, lookup-insert bytes_discrete id' id p ballot) in
            subst (λ j. VoteOk cast k j p') same_id (subst (VoteOk cast k id) same_vote new)
        | no other ↦ old.each id' p' (ground (arith, lookup-insert bytes_discrete id' id p ballot))
      ];
    }

    pub BallotsOf-put :
        {node_id : NodeId} (log : List (SequenceNumber × ConsensusInstance)) (k : ℕ)
        (i : ConsensusInstance)
        → BallotsOf node_id cast log
        → BallotOk cast k i.prepares
        → BallotsOf node_id cast (insert ℕ_discrete k i log)
    BallotsOf-put log k i old new = record {
      is_me = old.is_me;
      all = λ j i' e. elim (ℕ_discrete k j) [
        | yes same_number ↦
            let same_entry : i ≡ i' = ground (arith, lookup-insert ℕ_discrete j k i log) in
            subst (λ l. BallotOk cast l i'.prepares) same_number
              (subst (λ (l : ConsensusInstance). BallotOk cast k l.prepares) same_entry new)
        | no other ↦ old.all j i' (ground (arith, lookup-insert ℕ_discrete j k i log))
      ];
    }

    pub BallotsOf-retain :
        {node_id : NodeId} (log : List (SequenceNumber × ConsensusInstance)) (keep : ℕ → Bool)
        → BallotsOf node_id cast log
        → BallotsOf node_id cast (retain keep log)
    BallotsOf-retain log keep old = record {
      is_me = old.is_me;
      all = λ j i e. old.all j i (ground (arith, lookup-retain ℕ_discrete j keep log));
    }

    -- The entry that is lent.
    pub BallotOk-lent :
        (x : External) (now k : ℕ) (s : PbftState x)
        → BallotsOf s.node_id cast s.log
        → BallotOk cast k (get_or_create_instance x now k s).prepares
    unfolding get_or_create_instance instance_new lookup
    BallotOk-lent x now k s old = elim (Option-cases (lookup ℕ_discrete k s.log)) [
      | inl new ↦ rw (new) (record { each = λ id p e. absurd (cc) })
      | inr (i, e) ↦ rw (e) (old.all k i e)
    ]

  -- A vote that is sent later changes nothing for those before.
  pub BallotsOf-sent :
      {node_id : NodeId} {log : List (SequenceNumber × ConsensusInstance)} (cast : Cast)
      (p : Prepare)
      → BallotsOf node_id cast log
      → BallotsOf node_id (cast_too p cast) log
  BallotsOf-sent cast p old = record {
    is_me = old.is_me;
    all = λ k i e. record {
      each = λ id q f.
          let vote = (old.all k i e).each id q f in
          record {
            own = vote.own;
            numbered = vote.numbered;
            source = elim vote.source [
              | inl g ↦ inl g
              | inr (mine, earlier) ↦ inr (mine, ground arith)
            ];
          };
    };
  }
