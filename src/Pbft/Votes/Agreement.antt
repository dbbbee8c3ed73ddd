-- ===== src/Pbft/Votes/Agreement.antt =====
-- src/pbft.rs: several replicas, and the prepares that make up a quorum for a sequence number of a view.
use mathlib.Core.List.{Nodup, Nodup-cons, Mem, mem-cons_self, mem-cons_of_mem}
use p2p_pbft.Base.{
  ℕ, zero, suc, ◌^◌, ◌%◌, ◌≤◌, ◌<◌, ◌≡◌, ◌≢◌, ap, subst, inl, inr, List, [], ◌∷◌, Bool, true, false,
  ◌==◌, some, arith, Bool-cases, if◌then◌else◌,
}
use p2p_pbft.External.{External}
use p2p_pbft.Message.{NodeId, ViewNumber, SequenceNumber, Hash, consensus, prepare}
use p2p_pbft.Crypto.{KeyPair}
use p2p_pbft.Pbft.Config.{PbftConfig, config_new, quorum}
use p2p_pbft.Pbft.State.{OutgoingMessage, broadcast, state_new, consensus_new, replica_for}
use p2p_pbft.Pbft.Process.{Input, process_all}
use p2p_pbft.Pbft.Quorum.{count, both, quorums_meet}
use p2p_pbft.Pbft.Ballots.{voted_for}
use p2p_pbft.Pbft.Votes.{votes}
use p2p_pbft.Pbft.Votes.Once.{votes_once}

module _ (v : ViewNumber) (k : SequenceNumber) where
  mem-votes :
      (d : Hash) (out : List OutgoingMessage) → voted_for v k d out ≡ true → Mem k (votes v out)
  mem-votes d [] h = absurd (cc)
  mem-votes d (broadcast (consensus (prepare p)) ∷ out) h = elim (Bool-cases (p.view == v)) [
    | inl in_view ↦ elim (Bool-cases (p.sequence == k)) [
      | inl here ↦
          let same_number : p.sequence ≡ k = ground arith in
          rw (in_view) (subst (λ j. Mem j (p.sequence ∷ votes v out)) same_number mem-cons_self)
      | inr elsewhere ↦ rw (in_view) (mem-cons_of_mem _ (mem-votes d out (ground arith)))
    ]
    | inr other ↦ rw (other) (mem-votes d out (ground arith))
  ]
  mem-votes d (_ ∷ out) h = mem-votes d out h

  no_other_vote :
      (d : Hash) (out : List OutgoingMessage) → ¬ Mem k (votes v out) → voted_for v k d out ≡ false
  no_other_vote d out first = elim (Bool-cases (voted_for v k d out)) [
    | inl again ↦ absurd (first (mem-votes d out again))
    | inr never ↦ never
  ]

  -- Who votes once for each number votes for one digest.
  pub one_digest :
      (d e : Hash) (out : List OutgoingMessage)
      → Nodup (votes v out)
      → voted_for v k d out ≡ true
      → voted_for v k e out ≡ true
      → d ≡ e
  one_digest d e [] once h g = absurd (cc)
  one_digest d e (broadcast (consensus (prepare p)) ∷ out) once h g =
      let cast = votes v out in
      let cast_with : Bool → List ℕ = λ b. if b then p.sequence ∷ cast else cast in
      elim (Bool-cases (p.view == v)) [
        | inl in_view ↦
            let (first, tail) = Nodup-cons.0 (subst Nodup (ap cast_with in_view) once) in
            elim (Bool-cases (p.sequence == k)) [
              | inl here ↦
                  let same_number : p.sequence ≡ k = ground arith in
                  let alone = subst (λ j. ¬ Mem j cast) same_number first in
                  ground (arith, no_other_vote d out alone, no_other_vote e out alone)
              | inr elsewhere ↦ one_digest d e out tail (ground arith) (ground arith)
            ]
        | inr other ↦
            one_digest d e out (subst Nodup (ap cast_with other) once) (ground arith) (ground arith)
      ]
  one_digest d e (_ ∷ out) once h g = one_digest d e out once h g

-- Where more nodes pass the first test than the second, some node passes only the first.
pub some_left :
    (p q : ℕ → Bool) (n : ℕ)
    → count q n < count p n
    → (i : ℕ) × (i < n) × (p i ≡ true) × (q i ≡ false)
unfolding count
some_left p q zero h = absurd (omega arith)
some_left p q (suc n) h = elim (Bool-cases (p n)) [
  | inl yes_p ↦ elim (Bool-cases (q n)) [
    | inl yes_q ↦ let (i, lt, hp, hq) = some_left p q n (ground arith) in (i, omega arith, hp, hq)
    | inr no_q ↦ (n, omega arith, yes_p, no_q)
  ]
  | inr no_p ↦ let (i, lt, hp, hq) = some_left p q n (ground arith) in (i, omega arith, hp, hq)
]

-- What a new engine sends over a history.
abbrev pub sent_by :
    (x : External)
    → List NodeId
    → PbftConfig
    → ℕ
    → NodeId
    → KeyPair x
    → List (ℕ × Input)
    → List OutgoingMessage
sent_by x replicas config now id keypair inputs =
    (process_all x inputs (consensus_new x (state_new x now id keypair replicas config))).outgoing

-- Of n = 3f + 1 nodes, fewer than 2^64, let at most f be left out, the leader of a view among them, and
-- let each other node run a new engine on any history of its own. If two sets of nodes are each as large
-- as a quorum, and of those not left out the members of the first have sent prepares for one digest in
-- that view and at one sequence number, and the members of the second for one digest there too, then the
-- two digests are the same.
pub prepared_agree :
    (x : External) (n : ℕ) (v : ViewNumber) (k : SequenceNumber) (d e : Hash)
    (replicas : List NodeId) (config : PbftConfig) (now : ℕ → ℕ) (id : ℕ → NodeId)
    (keypair : ℕ → KeyPair x) (inputs : ℕ → List (ℕ × Input)) (left_out p q : ℕ → Bool)
    → n < 2 ^ 64
    → n % 3 ≡ 1
    → count left_out n ≤ (config_new n).f
    → ((i : ℕ) → i < n → left_out i ≡ false → replica_for x replicas v ≢ some (id i))
    → quorum (config_new n) ≤ count p n
    → quorum (config_new n) ≤ count q n
    → ((i : ℕ)
        → i < n
        → left_out i ≡ false
        → p i ≡ true
        → voted_for v k d (sent_by x replicas config (now i) (id i) (keypair i) (inputs i)) ≡ true)
    → ((i : ℕ)
        → i < n
        → left_out i ≡ false
        → q i ≡ true
        → voted_for v k e (sent_by x replicas config (now i) (id i) (keypair i) (inputs i)) ≡ true)
    → d ≡ e
prepared_agree x n v k d e replicas config now id keypair inputs left_out p q fits form few follow
      hp hq ps qs =
    let meets = quorums_meet n p q fits form hp hq in
    let (i, lt, shared, kept) = some_left (both p q) left_out n (omega arith) in
    let out = sent_by x replicas config (now i) (id i) (keypair i) (inputs i) in
    one_digest v k d e out
      (votes_once x v (now i) (id i) (keypair i) replicas config (inputs i) (follow i lt kept))
      (ps i lt kept (ground arith)) (qs i lt kept (ground arith))
