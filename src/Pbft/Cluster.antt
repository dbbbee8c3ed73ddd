-- ===== src/Pbft/Cluster.antt =====
-- src/pbft.rs: several replicas, each an engine on a history of its own.
pub mod Agreement
use p2p_pbft.Base.{
  ℕ, zero, suc, ◌+◌, ◌≤◌, ◌<◌, ◌≡◌, refl, sym, ap, subst, inl, inr, List, [], ◌∷◌, Option, none,
  some, Bool, true, false, ◌==◌, arith, Bool-cases, Option-cases, length, bytes_discrete,
}
use p2p_pbft.Base.Map.{lookup, contains_key, is_some}
use p2p_pbft.Base.Keys.{Distinct}
use p2p_pbft.External.{External}
use p2p_pbft.Message.{NodeId, ViewNumber, Hash, Prepare}
use p2p_pbft.Crypto.{KeyPair}
use p2p_pbft.Pbft.Config.{PbftConfig}
use p2p_pbft.Pbft.State.{ConsensusInstance, PbftConsensus, state_new, consensus_new}
use p2p_pbft.Pbft.Process.{Input, process_all}
use p2p_pbft.Pbft.Quorum.{count}
use p2p_pbft.Pbft.Ballots.{voted_for}

pub record Replica (x : External) : Type 0 where
  pub now : ℕ
  pub id : NodeId
  pub keypair : KeyPair x
  pub inputs : List (ℕ × Input)

-- A new engine of the replica, after its history.
abbrev pub engine_of : (x : External) → List NodeId → PbftConfig → Replica x → PbftConsensus x
engine_of x replicas config r =
    process_all x r.inputs (consensus_new x (state_new x r.now r.id r.keypair replicas config))

-- Where the prepare names a node below `n` that is not faulty, that node has sent it.
abbrev pub SentByItsNode :
    (x : External) → List NodeId → PbftConfig → ℕ → (ℕ → Replica x) → (ℕ → Bool) → Prepare → Type 0
SentByItsNode x replicas config n node faulty p =
    (m : ℕ)
    → m < n
    → faulty m ≡ false
    → p.replica_id ≡ (node m).id
    → voted_for p.view p.sequence p.digest (engine_of x replicas config (node m)).outgoing ≡ true

-- All prepares of the entry are for the view and the digest, and of nodes below `n`.
abbrev pub CertifiedFor :
    {x : External} → ℕ → (ℕ → Replica x) → ViewNumber → Hash → ConsensusInstance → Type 0
CertifiedFor n node v d i =
    (id : NodeId) (p : Prepare)
    → lookup bytes_discrete id i.prepares ≡ some p
    → (p.view ≡ v) × (p.digest ≡ d) × ((m : ℕ) × (m < n) × (id ≡ (node m).id))

count_mono : (p q : ℕ → Bool) (n : ℕ) → ((i : ℕ) → q i ≡ true → p i ≡ true) → count q n ≤ count p n
unfolding count
count_mono p q zero h = omega arith
count_mono p q (suc n) h = ground (arith, count_mono p q n h, h n)

count_one_more :
    (p q : ℕ → Bool) (n j : ℕ)
    → ((i : ℕ) → q i ≡ true → p i ≡ true)
    → j < n
    → p j ≡ true
    → q j ≡ false
    → count q n < count p n
unfolding count
count_one_more p q zero j h lt hp hq = absurd (omega arith)
count_one_more p q (suc n) j h lt hp hq = elim (Bool-cases (j == n)) [
  | inl last ↦
      let here : j ≡ n = ground arith in
      let pn : p n ≡ true = subst (λ i. p i ≡ true) here hp in
      let qn : q n ≡ false = subst (λ i. q i ≡ false) here hq in ground (arith, count_mono p q n h)
  | inr before ↦
      let lt' : j < n = ground arith in ground (arith, count_one_more p q n j h lt' hp hq, h n)
]

module _ {V : Type 0} (id : ℕ → NodeId) (n : ℕ) where
  abbrev listed : List (NodeId × V) → ℕ → Bool
  listed m j = contains_key bytes_discrete (id j) m

  listed-cons :
      (e : NodeId × V) (m : List (NodeId × V)) (key : NodeId)
      → contains_key bytes_discrete key m ≡ true
      → contains_key bytes_discrete key (e ∷ m) ≡ true
  unfolding lookup
  listed-cons e m key h = ground arith

  listed_first :
      (e : NodeId × V) (m : List (NodeId × V)) → contains_key bytes_discrete e.0 (e ∷ m) ≡ true
  unfolding lookup
  listed_first e m = ground arith

  -- A ballot of nodes below `n` has no more votes than nodes that voted.
  pub count_voters :
      (m : List (NodeId × V))
      → Distinct bytes_discrete m
      → ((key : NodeId)
          → contains_key bytes_discrete key m ≡ true
          → (j : ℕ) × (j < n) × (key ≡ id j))
      → length m ≤ count (listed m) n
  count_voters [] d known = omega arith
  count_voters (e ∷ m) (new, d) known =
      let rest : length m ≤ count (listed m) n =
        count_voters m d (λ key h. known key (listed-cons e m key h)) in
      let (j, lt, named) = known e.0 (listed_first e m) in
      let here : listed (e ∷ m) j ≡ true =
        subst (λ key. contains_key bytes_discrete key (e ∷ m) ≡ true) named (listed_first e m) in
      let before : listed m j ≡ false =
        subst (λ key. contains_key bytes_discrete key m ≡ false) named (ap is_some new) in
      let more : count (listed m) n < count (listed (e ∷ m)) n =
        count_one_more (listed (e ∷ m)) (listed m) n j (λ i. listed-cons e m (id i)) lt here
          before in
      omega (arith, rest, more)
