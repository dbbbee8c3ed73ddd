-- ===== src/Tests/Cluster.antt =====
-- The theorems on several replicas, for four nodes of which the last is silent.
use mathlib.Core.Path.{subst₂}
use p2p_pbft.Base.{
  ℕ, zero, suc, ◌≤◌, ◌<◌, ◌≡◌, ◌≢◌, refl, inl, List, [], ◌∷◌, Option, none, some, Bool, ◌==◌, true,
  false, arith, length, ℕ_discrete, bytes_discrete,
}
use p2p_pbft.Base.Map.{lookup}
use p2p_pbft.Message.{NodeId, Prepare, pre_prepare, prepare, request_digest}
use p2p_pbft.Pbft.Config.{config_new}
use p2p_pbft.Pbft.State.{ConsensusInstance, instance_new, prepared}
use p2p_pbft.Pbft.Process.{Input, received, submitted}
use p2p_pbft.Pbft.Histories.{AllAdmitted}
use p2p_pbft.Pbft.Quorum.{count}
use p2p_pbft.Pbft.Ballots.{voted_for}
use p2p_pbft.Pbft.Ballots.Blocks.{Admits}
use p2p_pbft.Pbft.Votes.Leader.{FromOthers}
use p2p_pbft.Pbft.Cluster.{Replica, engine_of, SentByItsNode, CertifiedFor}
use p2p_pbft.Pbft.Cluster.Agreement.{entries_agree}
use p2p_pbft.Tests.Sample.{sample, node, pair, four, hello}
use p2p_pbft.Tests.Runs.{engine, proposal, vote}

abbrev hears : ℕ → ℕ → List (ℕ × Input)
hears i j = (2, received (prepare (vote i hello))) ∷ (3, received (prepare (vote j hello))) ∷ []

abbrev history : ℕ → List (ℕ × Input)
history zero = (1, submitted hello) ∷ hears 1 2
history (suc zero) = (1, received (pre_prepare (proposal hello))) ∷ hears 0 2
history (suc (suc zero)) = (1, received (pre_prepare (proposal hello))) ∷ hears 0 1
history (suc (suc (suc m))) = []

abbrev member : ℕ → Replica sample
member i = record { now = i; id = node i; keypair = pair i; inputs = history i }

abbrev silent : ℕ → Bool
silent i = i == 3

abbrev or_new : Option ConsensusInstance → ConsensusInstance
or_new none = instance_new 0 0 0
or_new (some i) = i

abbrev stored : ℕ → Option ConsensusInstance
stored i = lookup ℕ_discrete 1 (engine_of sample four (config_new 4) (member i)).state.log

entry : ℕ → ConsensusInstance
entry i = or_new (stored i)

stored_0 : stored 0 ≡ some (entry 0)
unfolding engine entry
stored_0 = refl

stored_1 : stored 1 ≡ some (entry 1)
unfolding engine entry
stored_1 = refl

prepared_0 : (entry 0).phase ≡ prepared
unfolding engine entry
prepared_0 = refl

prepared_1 : (entry 1).phase ≡ prepared
unfolding engine entry
prepared_1 = refl

one_silent : count silent 4 ≤ (config_new 4).f
unfolding count config_new
one_silent = omega arith

apart : (l m : ℕ) → l < 4 → m < 4 → (member l).id ≡ (member m).id → l ≡ m
apart l m lt_l lt_m same_name = ground arith

honest_nodes : (P : ℕ → Type 0) → P 0 → P 1 → P 2 → (m : ℕ) → m < 4 → silent m ≡ false → P m
honest_nodes P p0 p1 p2 zero lt honest = p0
honest_nodes P p0 p1 p2 (suc zero) lt honest = p1
honest_nodes P p0 p1 p2 (suc (suc zero)) lt honest = p2
honest_nodes P p0 p1 p2 (suc (suc (suc m))) lt honest = absurd (ground arith)

short : (m : ℕ) → m < 4 → silent m ≡ false → length (member m).inputs < 18446744073709551616
short = honest_nodes _ (omega arith) (omega arith) (omega arith)

not_leader : (i : ℕ) → 0 < i → node 0 ≢ node i
not_leader i pos e = absurd (ground arith)

own : (m : ℕ) → m < 4 → silent m ≡ false → AllAdmitted (FromOthers (member m).id) (member m).inputs
own =
    honest_nodes _ (tt, (tt, (tt, tt))) ((λ e. not_leader 1 (omega arith) e), (tt, (tt, tt)))
      ((λ e. not_leader 2 (omega arith) e), (tt, (tt, tt)))

has_voted :
    (m : ℕ)
    → m < 4
    → silent m ≡ false
    → voted_for 0 1
        (request_digest sample hello)
        (engine_of sample four (config_new 4) (member m)).outgoing
      ≡ true
unfolding engine
has_voted = honest_nodes _ refl refl refl

abbrev Genuine : Prepare → Type 0
Genuine = SentByItsNode sample four (config_new 4) 4 member silent

admitted :
    (m : ℕ) → m < 4 → silent m ≡ false → AllAdmitted (Admits sample Genuine) (member m).inputs
admitted =
    let sent : (j : ℕ) → Admits sample Genuine (received (prepare (vote j hello))) =
      λ j signed m lt honest named. has_voted m lt honest in
    honest_nodes _ (tt, (sent 1, (sent 2, tt))) (tt, (sent 0, (sent 2, tt)))
      (tt, (sent 0, (sent 1, tt)))

abbrev VoteFor : NodeId → Prepare → Type 0
VoteFor id p =
    (p.view ≡ 0)
    × (p.digest ≡ request_digest sample hello)
    × ((m : ℕ) × (m < 4) × (id ≡ (member m).id))

abbrev AllFor : List (NodeId × Prepare) → Type 0
AllFor [] = Unit {0}
AllFor (e ∷ ballot) = VoteFor e.0 e.1 × AllFor ballot

each_for :
    (ballot : List (NodeId × Prepare)) (id : NodeId) (p : Prepare)
    → AllFor ballot
    → lookup bytes_discrete id ballot ≡ some p
    → VoteFor id p
unfolding lookup
each_for [] id p all found = absurd (cc)
each_for (e ∷ ballot) id p (here, all) found = elim (bytes_discrete e.0 id) [
  | yes same_id ↦ let same_vote : e.1 ≡ p = ground arith in subst₂ VoteFor same_id same_vote here
  | no other ↦ each_for ballot id p all (ground arith)
]

abbrev for_hello : (i : ℕ) → i < 4 → VoteFor (node i) (vote i hello)
for_hello i lt = (refl, refl, (i, lt, refl))

certified_0 : CertifiedFor 4 member 0 (request_digest sample hello) (entry 0)
unfolding engine entry
certified_0 id p =
    each_for (entry 0).prepares id p
      (for_hello 0 (omega arith), (for_hello 1 (omega arith), (for_hello 2 (omega arith), tt)))

certified_1 : CertifiedFor 4 member 0 (request_digest sample hello) (entry 1)
unfolding engine entry
certified_1 id p =
    each_for (entry 1).prepares id p
      (for_hello 1 (omega arith), (for_hello 0 (omega arith), (for_hello 2 (omega arith), tt)))

entries_agree_example : request_digest sample hello ≡ request_digest sample hello
entries_agree_example =
    entries_agree sample 4 four member silent 0 1 0 1 (entry 0) (entry 1)
      (request_digest sample hello) (request_digest sample hello) (omega arith) refl (omega arith)
      one_silent apart short own admitted (omega arith) refl (omega arith) refl stored_0 stored_1
      (inl prepared_0) (inl prepared_1) certified_0 certified_1
