-- ===== src/Pbft/Votes.antt =====
-- src/pbft.rs: the prepares that a backup sends in one view, and the blocks that write entries of the log.
pub mod Cast
pub mod Once
pub mod Leader
pub mod Agreement
use mathlib.Core.List.{Nodup, Nodup-nil, Nodup-cons, Mem, mem-cons, mem-cons_self}
use mathlib.Core.HLevel.{⊥_prop}
use mathlib.Core.Logic.Or
use p2p_pbft.Base.{
  ℕ, ◌≤◌, ◌<◌, ◌≡◌, ◌≢◌, refl, sym, ap, ◌∙◌, subst, inl, inr, List, [], ◌∷◌, Option, none, some,
  Bool, true, false, ◌||◌, ◌==◌, leb, ltb, arith, Bool-cases, Option-cases, ℕ_discrete, same,
  if◌then◌else◌,
}
use p2p_pbft.Base.Map.{lookup, insert, retain, is_some, lookup-insert, lookup-retain}
use p2p_pbft.Base.Flow.{Step, flow, after}
use p2p_pbft.Base.Flow.Ends.{
  Ends, bind-Ends, gets-Ends, modify-Ends, guard-Ends, return_if-Ends, branch-Ends, unwrap-Ends,
  some_or_return-Ends, pure-Ends, write-Ends, Ends-Stays,
}
use p2p_pbft.External.{External}
use p2p_pbft.Message.{
  NodeId, Request, PrePrepare, Prepare, Commit, SequenceNumber, ViewNumber, Hash, consensus,
  pre_prepare, prepare,
}
use p2p_pbft.Pbft.State.{
  OutgoingMessage, broadcast, ConsensusInstance, PbftConsensus, PbftState, replica_for,
  put_instance, get_or_create_instance, instance_new,
}
use p2p_pbft.Pbft.Quiet.{voices, still}
use p2p_pbft.Pbft.Advance.{commit_instance, make_commit}
use p2p_pbft.Pbft.Normal.{accept_prepare, accept_commit}

-- The sequence numbers of the prepares for view `v` among what was sent.
abbrev pub votes : ViewNumber → List OutgoingMessage → List ℕ
votes v [] = []
votes v (broadcast (consensus (prepare p)) ∷ out) =
    let rest = votes v out in if p.view == v then p.sequence ∷ rest else rest
votes v (_ ∷ out) = votes v out

pub votes-voices :
    (v : ViewNumber) (out : List OutgoingMessage) → votes v (voices out) ≡ votes v out
votes-voices v [] = refl
votes-voices v (broadcast (consensus (pre_prepare pp)) ∷ out) = votes-voices v out
votes-voices v (broadcast (consensus (prepare p)) ∷ out) =
    ap (λ rest. if p.view == v then p.sequence ∷ rest else rest) (votes-voices v out)
votes-voices v (_ ∷ out) = votes-voices v out

-- Whether an entry has a pre-prepare.
abbrev pub proposed : Option ConsensusInstance → Bool
proposed none = false
proposed (some i) = is_some i.pre_prepare

-- A sequence number for which a backup does not vote: it is not above the low watermark, or its entry has
-- a pre-prepare.
abbrev pub settled : ℕ → List (SequenceNumber × ConsensusInstance) → ℕ → Bool
settled low log k = leb k low || proposed (lookup ℕ_discrete k log)

-- The replica does not lead view `v`, has voted once at most for each number in it, and does not vote
-- again for these.
pub record VotedOf (x : External) (v : ViewNumber) (replicas : List NodeId) (node_id : NodeId)
    (low stable : ℕ) (log : List (SequenceNumber × ConsensusInstance)) (cast : List ℕ)
    : Type 0 where
  pub follows : replica_for x replicas v ≢ some node_id
  pub in_step : low ≡ stable
  pub all_settled : (k : ℕ) → Mem k cast → settled low log k ≡ true
  pub once : Nodup cast

abbrev pub VotedIn : (x : External) → ViewNumber → PbftConsensus x → Type 0
VotedIn x v w =
    VotedOf x v w.state.replicas w.state.node_id w.state.low_watermark w.state.stable_checkpoint
      w.state.log (votes v w.outgoing)

abbrev pub Voted : (x : External) → ViewNumber → PbftConsensus x → Type 0
Voted x v w = VotedIn x v (still x w)

module _ (x : External) (v : ViewNumber) where
  -- An entry that is written has a pre-prepare if the one before it has.
  pub VotedOf-put :
      {replicas : List NodeId} {node_id : NodeId} {low stable : ℕ}
      {log : List (SequenceNumber × ConsensusInstance)} {cast : List ℕ} (k : ℕ)
      (i : ConsensusInstance)
      → VotedOf x v replicas node_id low stable log cast
      → (proposed (lookup ℕ_discrete k log) ≡ true → is_some i.pre_prepare ≡ true)
      → VotedOf x v replicas node_id low stable (insert ℕ_discrete k i log) cast
  VotedOf-put {low = low} {log = log} k i h stays = record {
    follows = h.follows;
    in_step = h.in_step;
    all_settled =
        λ j m. ground (arith, lookup-insert ℕ_discrete j k i log, h.all_settled j m, stays);
    once = h.once;
  }

  -- The entry that is lent has a pre-prepare just if there is one in the log.
  pub lent :
      (now k : ℕ) (s : PbftState x)
      → proposed (lookup ℕ_discrete k s.log)
        ≡ is_some (get_or_create_instance x now k s).pre_prepare
  unfolding get_or_create_instance instance_new
  lent now k s = elim (Option-cases (lookup ℕ_discrete k s.log)) [
    | inl new ↦ rw (new) refl
    | inr (i, old) ↦ rw (old) refl
  ]

  pub make_commit-Voted :
      (k : ℕ) (w : PbftConsensus x)
      → Voted x v w
      → Ends (Voted x v) (λ _. Voted x v) (make_commit x k w)
  unfolding make_commit put_instance
  make_commit-Voted k w h = gets-Ends _ _ _ (
      some_or_return-Ends _ _ _ h λ i found. return_if-Ends _ _ _ h λ has_pp.
        return_if-Ends _ _ _ h λ is_pre_prepared. return_if-Ends _ _ _ h λ enough.
          unwrap-Ends _ _ _ h λ d e.
            modify-Ends _ _ _
              (pure-Ends _ _ _ (VotedOf-put k _ h (λ p. sym (ap proposed found) ∙ p))))

  pub commit_instance-Voted :
      (k : ℕ) (w : PbftConsensus x)
      → Voted x v w
      → Ends (Voted x v) (λ _. Voted x v) (commit_instance x k w)
  unfolding commit_instance put_instance
  commit_instance-Voted k w h = gets-Ends _ _ _ (
      some_or_return-Ends _ _ _ h λ i found. return_if-Ends _ _ _ h λ is_prepared.
        return_if-Ends _ _ _ h λ enough. modify-Ends _ _ _ (
          modify-Ends _ _ _
            (pure-Ends _ _ _ (VotedOf-put k _ h (λ p. sym (ap proposed found) ∙ p)))))

  -- An entry that is written twice.
  again :
      (k : ℕ) (i : ConsensusInstance) (log : List (SequenceNumber × ConsensusInstance))
      → proposed (lookup ℕ_discrete k (insert ℕ_discrete k i log)) ≡ true
      → is_some i.pre_prepare ≡ true
  again k i log p = ground (arith, lookup-insert ℕ_discrete k k i log)

  pub accept_prepare-Voted :
      (now : ℕ) (p : Prepare) (w : PbftConsensus x)
      → Voted x v w
      → Ends (Voted x v) (λ _. Voted x v) (accept_prepare x now p w)
  unfolding accept_prepare put_instance
  accept_prepare-Voted now p w h = gets-Ends _ _ _ (
      guard-Ends _ _ _ _ h λ in_view. guard-Ends _ _ _ _ h λ in_range.
        guard-Ends _ _ _ _ h λ signed.
          let i = get_or_create_instance x now p.sequence w.state in
          let h1 = VotedOf-put p.sequence i h (λ q. sym (lent now p.sequence w.state) ∙ q) in
          modify-Ends _ _ _ (
            guard-Ends _ _ _ _ h1 λ admits. return_if-Ends _ _ _ h1 λ new_vote.
              write-Ends _ _ _ (VotedOf-put p.sequence _ h1 (again p.sequence i w.state.log))))

  pub accept_commit-Voted :
      (now : ℕ) (c : Commit) (w : PbftConsensus x)
      → Voted x v w
      → Ends (Voted x v) (λ _. Voted x v) (accept_commit x now c w)
  unfolding accept_commit put_instance
  accept_commit-Voted now c w h = gets-Ends _ _ _ (
      guard-Ends _ _ _ _ h λ in_view. guard-Ends _ _ _ _ h λ in_range.
        guard-Ends _ _ _ _ h λ signed.
          let i = get_or_create_instance x now c.sequence w.state in
          let h1 = VotedOf-put c.sequence i h (λ q. sym (lent now c.sequence w.state) ∙ q) in
          modify-Ends _ _ _ (
            guard-Ends _ _ _ _ h1 λ admits. return_if-Ends _ _ _ h1 λ new_vote.
              write-Ends _ _ _ (VotedOf-put c.sequence _ h1 (again c.sequence i w.state.log))))
