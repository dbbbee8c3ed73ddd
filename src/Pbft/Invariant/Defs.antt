-- ===== src/Pbft/Invariant/Defs.antt =====
-- The invariant of an engine, and how a write to its log keeps it.
use mathlib.Core.List.{Mem, Nodup, mem-cons_of_mem}
use mathlib.Core.Path.{subst₂}
use p2p_pbft.Base.{
  ℕ, ◌≤◌, ◌<◌, ◌≡◌, refl, ◌≢◌, ◌⊎◌, inl, List, [], ◌∷◌, ◌++◌, map, Bool, Option, none, some, arith,
  length, ℕ_discrete,
}
use p2p_pbft.Base.Map.{lookup, insert, retain, lookup-insert, lookup-retain}
use p2p_pbft.External.{External}
use p2p_pbft.Message.{NodeId, SequenceNumber, Hash, Request, PrePrepare, request_digest}
use p2p_pbft.Pbft.Config.{PbftConfig, quorum}
use p2p_pbft.Pbft.Invariant.Votes.{Ballot, Ballot-nil}
use p2p_pbft.Pbft.State.{
  ConsensusInstance, PbftState, PbftConsensus, Phase, idle, prepared, committed, instance_new,
  get_or_create_instance,
}

-- An instance is idle and empty, or has a request, its digest and a pre-prepare that agree.
abbrev pub Proposal :
    (x : External) → ℕ → Phase → Option Request → Option Hash → Option PrePrepare → Type 0
Proposal x k phase request digest pre_prepare =
    ((phase ≡ idle) × (request ≡ none) × (digest ≡ none) × (pre_prepare ≡ none))
    ⊎ ((pp : PrePrepare) × (phase ≢ idle)
        × (request ≡ some pp.request)
        × (digest ≡ some pp.digest)
        × (pre_prepare ≡ some pp)
        × (pp.sequence ≡ k)
        × (request_digest x pp.request ≡ pp.digest))

-- The instance at `k`, for quorums of `q` and the digests executed so far.
pub record InstanceOk (x : External) (q : ℕ) (executed : List Hash) (k : ℕ) (i : ConsensusInstance)
    : Type 0 where
  pub numbered : i.sequence ≡ k
  pub proposal : Proposal x k i.phase i.request i.digest i.pre_prepare
  pub prepares_ballot : Ballot (λ p. p.replica_id) (λ p. p.sequence) k i.prepares
  pub commits_ballot : Ballot (λ c. c.replica_id) (λ c. c.sequence) k i.commits
  pub has_prepares : (i.phase ≡ prepared) ⊎ (i.phase ≡ committed) → q ≤ length i.prepares
  pub has_commits : i.phase ≡ committed → q ≤ length i.commits
  pub is_executed : i.phase ≡ committed → (d : Hash) → i.digest ≡ some d → Mem d executed

abbrev pub LogOk :
    (x : External) → ℕ → List Hash → List (SequenceNumber × ConsensusInstance) → Type 0
LogOk x q executed log =
    (k : ℕ) (i : ConsensusInstance) → lookup ℕ_discrete k log ≡ some i → InstanceOk x q executed k i

-- `pending` holds the digest of a request that is marked as executed and not yet delivered.
pub record InvOf (x : External) (pending : List Hash) (replicas : List NodeId) (config : PbftConfig)
    (log : List (SequenceNumber × ConsensusInstance)) (executed : List Hash)
    (delivered : List Request) : Type 0 where
  pub has_replicas : 0 < length replicas
  pub has_interval : 0 < config.checkpoint_interval
  pub log_ok : LogOk x (quorum config) executed log
  pub once : Nodup executed
  pub in_step : executed ≡ pending ++ map (request_digest x) delivered

abbrev pub InvWith : (x : External) → List Hash → PbftConsensus x → Type 0
InvWith x pending w =
    InvOf x pending w.state.replicas w.state.config w.state.log w.state.executed w.committed

abbrev pub Inv : (x : External) → PbftConsensus x → Type 0
Inv x = InvWith x []

module _ (x : External) {q : ℕ} {executed : List Hash} where
  pub LogOk-insert :
      (log : List (SequenceNumber × ConsensusInstance)) (k : ℕ) (i : ConsensusInstance)
      → LogOk x q executed log
      → InstanceOk x q executed k i
      → LogOk x q executed (insert ℕ_discrete k i log)
  LogOk-insert log k i old new j i' e = elim (ℕ_discrete k j) [
    | yes p ↦
        subst₂ (InstanceOk x q executed) p (ground (arith, lookup-insert ℕ_discrete j k i log)) new
    | no p ↦ old j i' (ground (arith, lookup-insert ℕ_discrete j k i log))
  ]

  pub LogOk-retain :
      (log : List (SequenceNumber × ConsensusInstance)) (keep : ℕ → Bool)
      → LogOk x q executed log
      → LogOk x q executed (retain keep log)
  LogOk-retain log keep old j i e = old j i (ground (arith, lookup-retain ℕ_discrete j keep log))

  pub InstanceOk-new : (now k view : ℕ) → InstanceOk x q executed k (instance_new now k view)
  unfolding instance_new
  InstanceOk-new now k view = record {
    numbered = refl;
    proposal = inl (refl, refl, refl, refl);
    prepares_ballot = Ballot-nil k;
    commits_ballot = Ballot-nil k;
    has_prepares = λ h. ground arith;
    has_commits = λ h. cc;
    is_executed = λ h. cc;
  }

  -- The entry that is lent keeps the condition on entries.
  pub InstanceOk-get :
      (s : PbftState x) (now k : ℕ)
      → LogOk x q executed s.log
      → InstanceOk x q executed k (get_or_create_instance x now k s)
  unfolding get_or_create_instance
  InstanceOk-get s now k old = go (lookup ℕ_discrete k s.log) refl
    where
      go :
          (o : Option ConsensusInstance)
          → lookup ℕ_discrete k s.log ≡ o
          → InstanceOk x q executed k (elim o [ none ↦ instance_new now k s.view | some i ↦ i ])
      go none e = InstanceOk-new now k s.view
      go (some i) e = old k i e

-- What is executed stays so.
pub InstanceOk-mono :
    (x : External) {q : ℕ} {executed : List Hash} {k : ℕ} {i : ConsensusInstance} (d : Hash)
    → InstanceOk x q executed k i
    → InstanceOk x q (d ∷ executed) k i
InstanceOk-mono x d h = record {
  numbered = h.numbered;
  proposal = h.proposal;
  prepares_ballot = h.prepares_ballot;
  commits_ballot = h.commits_ballot;
  has_prepares = h.has_prepares;
  has_commits = h.has_commits;
  is_executed = λ c e p. mem-cons_of_mem d (h.is_executed c e p);
}
