-- ===== src/Pbft/Cluster/Agreement.antt =====
-- src/pbft.rs: entries of the logs of two replicas that have prepared at the same sequence number.
use mathlib.Core.List.{Nodup}
use p2p_pbft.Base.{
  ℕ, ◌^◌, ◌%◌, ◌≤◌, ◌<◌, ◌≡◌, refl, sym, ap, ◌∙◌, subst, ◌⊎◌, inl, inr, List, [], ◌∷◌, some, Bool,
  true, false, ◌==◌, ◌||◌, ◌&&◌, arith, same, length, ℕ_discrete, bytes_discrete, Option-cases,
}
use p2p_pbft.Base.Map.{lookup, contains_key}
use p2p_pbft.External.{External}
use p2p_pbft.Message.{
  NodeId, ViewNumber, SequenceNumber, Hash, Prepare, consensus, pre_prepare, prepare,
}
use p2p_pbft.Pbft.Config.{config_new, quorum}
use p2p_pbft.Pbft.State.{
  OutgoingMessage, broadcast, ConsensusInstance, PbftConsensus, prepared, committed, state_new,
  consensus_new, replica_for,
}
use p2p_pbft.Pbft.Histories.{AllAdmitted, process_all-Stays}
use p2p_pbft.Pbft.Quiet.{voices, maintained}
use p2p_pbft.Pbft.Quorum.{count, both, quorums_meet}
use p2p_pbft.Pbft.Safety.{fresh-Inv, process_all-Inv}
use p2p_pbft.Pbft.Views.{process_all-Grows}
use p2p_pbft.Pbft.Ballots.{voted_for, BallotOk, BallotsIn}
use p2p_pbft.Pbft.Ballots.Blocks.{Admits, handled-Ballots}
use p2p_pbft.Pbft.Votes.{votes}
use p2p_pbft.Pbft.Votes.Once.{votes_once}
use p2p_pbft.Pbft.Votes.Leader.{FromOthers, leader_votes_once}
use p2p_pbft.Pbft.Votes.Agreement.{one_digest, some_left}
use p2p_pbft.Pbft.Cluster.{Replica, engine_of, SentByItsNode, CertifiedFor, listed, count_voters}

voted_for-voices :
    (v : ViewNumber) (k : SequenceNumber) (d : Hash) (out : List OutgoingMessage)
    → voted_for v k d (voices out) ≡ voted_for v k d out
voted_for-voices v k d [] = refl
voted_for-voices v k d (broadcast (consensus (pre_prepare pp)) ∷ out) = voted_for-voices v k d out
voted_for-voices v k d (broadcast (consensus (prepare p)) ∷ out) =
    ap (λ rest. (p.view == v && p.sequence == k && same p.digest d) || rest)
      (voted_for-voices v k d out)
voted_for-voices v k d (_ ∷ out) = voted_for-voices v k d out

stored_vote :
    {V : Type 0} (id : NodeId) (m : List (NodeId × V))
    → contains_key bytes_discrete id m ≡ true
    → (p : V) × (lookup bytes_discrete id m ≡ some p)
stored_vote id m h = elim (Option-cases (lookup bytes_discrete id m)) [
  | inl missing ↦ absurd (cc)
  | inr found ↦ found
]

module _ (x : External) (n : ℕ) (replicas : List NodeId) (node : ℕ → Replica x)
    (faulty : ℕ → Bool) where
  abbrev engine : ℕ → PbftConsensus x
  engine m = engine_of x replicas (config_new n) (node m)

  abbrev Genuine : Prepare → Type 0
  Genuine = SentByItsNode x replicas (config_new n) n node faulty

  -- Where the prepares of an entry of the log come from.
  ballot_of :
      (a k : ℕ) (i : ConsensusInstance)
      → AllAdmitted (Admits x Genuine) (node a).inputs
      → lookup ℕ_discrete k (engine a).state.log ≡ some i
      → BallotOk Genuine
          (node a).id
          (λ v j d. voted_for v j d (voices (engine a).outgoing))
          k
          i.prepares
  unfolding consensus_new state_new lookup
  ballot_of a k i admitted stored =
      let r = node a in
      let new = consensus_new x (state_new x r.now r.id r.keypair replicas (config_new n)) in
      let kept =
        process_all-Stays x (handled-Ballots x Genuine r.id)
          (maintained x (BallotsIn Genuine r.id x)) r.inputs new admitted
          (record { is_me = refl; all = λ j l e. absurd (cc) }) in
      kept.all k i stored

  -- A node that is not faulty has sent the prepare that an entry has of it.
  has_sent :
      (a c : ℕ) (v : ViewNumber) (k : SequenceNumber) (d : Hash) (i : ConsensusInstance)
      → ((l m : ℕ) → l < n → m < n → (node l).id ≡ (node m).id → l ≡ m)
      → AllAdmitted (Admits x Genuine) (node a).inputs
      → lookup ℕ_discrete k (engine a).state.log ≡ some i
      → CertifiedFor n node v d i
      → a < n
      → c < n
      → faulty c ≡ false
      → contains_key bytes_discrete (node c).id i.prepares ≡ true
      → voted_for v k d (engine c).outgoing ≡ true
  has_sent a c v k d i apart admitted stored certified lt_a lt_c honest has =
      let (p, found) = stored_vote (node c).id i.prepares has in
      let vote = (ballot_of a k i admitted stored).each (node c).id p found in
      let (in_view, for_digest, _) = certified (node c).id p found in
      let of : ℕ → ViewNumber → Hash → ℕ → Bool = λ j u e m. voted_for u j e (engine m).outgoing in
      let sent : of k p.view p.digest c ≡ true = elim vote.source [
        | inl genuine ↦
            subst (λ j. of j p.view p.digest c ≡ true) vote.numbered
              (genuine c lt_c honest vote.own)
        | inr (mine, cast) ↦
            subst (λ m. of k p.view p.digest m ≡ true) (sym (apart c a lt_c lt_a mine))
              (sym (voted_for-voices p.view k p.digest (engine a).outgoing) ∙ cast)
      ] in
      subst (λ u. of k u d c ≡ true) in_view (subst (λ e. of k p.view e c ≡ true) for_digest sent)

  -- A node whose pre-prepares are its own votes once for each number, whether it leads the view or not.
  votes_once_always :
      (c : ℕ) (v : ViewNumber)
      → length (node c).inputs < 2 ^ 64
      → AllAdmitted (FromOthers (node c).id) (node c).inputs
      → Nodup (votes v (engine c).outgoing)
  votes_once_always c v small own =
      let r = node c in
      elim (Option-cases (replica_for x replicas v)) [
        | inl none_leads ↦
            votes_once x v r.now r.id r.keypair replicas (config_new n) r.inputs (λ e. absurd (cc))
        | inr (leader, leads) ↦ elim (bytes_discrete leader r.id) [
          | yes me ↦
              leader_votes_once x v r.id r.now r.keypair replicas (config_new n) r.inputs small own
                (leads ∙ ap some me)
          | no other ↦
              votes_once x v r.now r.id r.keypair replicas (config_new n) r.inputs
                (λ e. ground arith)
        ]
      ]

  -- The configuration never changes.
  configured : (a : ℕ) → (engine a).state.config ≡ config_new n
  unfolding consensus_new state_new
  configured a =
      let r = node a in
      let new = consensus_new x (state_new x r.now r.id r.keypair replicas (config_new n)) in
      (process_all-Grows x r.inputs new).2

  has_interval : (m : ℕ) → 0 < (config_new m).checkpoint_interval
  unfolding config_new
  has_interval m = omega arith

  -- An entry that has prepared has a quorum of nodes among its prepares.
  has_quorum :
      (a k : ℕ) (v : ViewNumber) (d : Hash) (i : ConsensusInstance)
      → 0 < length replicas
      → lookup ℕ_discrete k (engine a).state.log ≡ some i
      → (i.phase ≡ prepared) ⊎ (i.phase ≡ committed)
      → CertifiedFor n node v d i
      → quorum (config_new n) ≤ count (listed (λ m. (node m).id) n i.prepares) n
  has_quorum a k v d i some_replicas stored is_prepared certified =
      let r = node a in
      let new =
        fresh-Inv x r.now r.id r.keypair replicas (config_new n) some_replicas (has_interval n) in
      let entry = (process_all-Inv x r.inputs _ new).log_ok k i stored in
      let many : quorum (config_new n) ≤ length i.prepares =
        subst (λ c. quorum c ≤ length i.prepares) (configured a) (entry.has_prepares is_prepared) in
      let few : length i.prepares ≤ count (listed (λ m. (node m).id) n i.prepares) n =
        count_voters (λ m. (node m).id) n i.prepares entry.prepares_ballot.0
          (λ key has.
            let (p, found) = stored_vote key i.prepares has in (certified key p found).2) in
      omega (arith, many, few)

-- Of n = 3f + 1 nodes, fewer than 2^64 and no two with the same name, let at most f be faulty, and let
-- each other node run a new engine, configured for n nodes and with the same list of replicas as the
-- others, which is not empty, on any history of its own of fewer than 2^64 inputs in which no pre-prepare
-- comes in its own name and each prepare that is validly signed in the name of a node that is not faulty
-- has been sent by that node. If two nodes that are not faulty, whether they lead the view or not, have
-- entries at one sequence number that have prepared or committed, and the prepares in either entry are
-- all of these n nodes, for one view and for one digest to each entry, then the two digests are the
-- same.
pub entries_agree :
    (x : External) (n : ℕ) (replicas : List NodeId) (node : ℕ → Replica x) (faulty : ℕ → Bool)
    (v : ViewNumber) (k : SequenceNumber) (a b : ℕ) (i j : ConsensusInstance) (d e : Hash)
    → n < 2 ^ 64
    → n % 3 ≡ 1
    → 0 < length replicas
    → count faulty n ≤ (config_new n).f
    → ((l m : ℕ) → l < n → m < n → (node l).id ≡ (node m).id → l ≡ m)
    → ((m : ℕ) → m < n → faulty m ≡ false → length (node m).inputs < 2 ^ 64)
    → ((m : ℕ) → m < n → faulty m ≡ false → AllAdmitted (FromOthers (node m).id) (node m).inputs)
    → ((m : ℕ)
        → m < n
        → faulty m ≡ false
        → AllAdmitted
            (Admits x (SentByItsNode x replicas (config_new n) n node faulty))
            (node m).inputs)
    → a < n
    → faulty a ≡ false
    → b < n
    → faulty b ≡ false
    → lookup ℕ_discrete k (engine_of x replicas (config_new n) (node a)).state.log ≡ some i
    → lookup ℕ_discrete k (engine_of x replicas (config_new n) (node b)).state.log ≡ some j
    → (i.phase ≡ prepared) ⊎ (i.phase ≡ committed)
    → (j.phase ≡ prepared) ⊎ (j.phase ≡ committed)
    → CertifiedFor n node v d i
    → CertifiedFor n node v e j
    → d ≡ e
entries_agree x n replicas node faulty v k a b i j d e fits form some_replicas few apart small own
      admitted lt_a honest_a lt_b honest_b stored_i stored_j phase_i phase_j certified_i
      certified_j =
    let first = listed (λ m. (node m).id) n i.prepares in
    let second = listed (λ m. (node m).id) n j.prepares in
    let many_i =
      has_quorum x n replicas node faulty a k v d i some_replicas stored_i phase_i certified_i in
    let many_j =
      has_quorum x n replicas node faulty b k v e j some_replicas stored_j phase_j certified_j in
    let meets = quorums_meet n first second fits form many_i many_j in
    let (c, lt, shared, honest) =
      some_left (both first second) faulty n (omega (arith, few, meets)) in
    one_digest v k d e (engine_of x replicas (config_new n) (node c)).outgoing
      (votes_once_always x n replicas node faulty c v (small c lt honest) (own c lt honest))
      (has_sent x n replicas node faulty a c v k d i apart (admitted a lt_a honest_a) stored_i
        certified_i lt_a lt honest (ground arith))
      (has_sent x n replicas node faulty b c v k e j apart (admitted b lt_b honest_b) stored_j
        certified_j lt_b lt honest (ground arith))
