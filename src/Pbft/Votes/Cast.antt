-- ===== src/Pbft/Votes/Cast.antt =====
-- src/pbft.rs: `propose` and `accept_pre_prepare`, whose prepare is sent next.
use mathlib.Core.List.{Nodup-cons, mem-cons}
use mathlib.Core.HLevel.{⊥_prop}
use mathlib.Core.Logic.Or
use p2p_pbft.Base.{
  ℕ, ◌≡◌, ◌≢◌, refl, sym, subst, inl, inr, List, ◌∷◌, Option, none, some, true, false, ◌==◌, arith,
  Bool-cases, ℕ_discrete, if◌then◌else◌,
}
use p2p_pbft.Base.Map.{lookup, insert, is_some, lookup-insert}
use p2p_pbft.Base.Flow.Ends.{
  Ends, gets-Ends, modify-Ends, guard-Ends, return_if-Ends, unwrap-Ends, pure-Ends,
}
use p2p_pbft.External.{External}
use p2p_pbft.Message.{
  NodeId, Request, PrePrepare, Prepare, SequenceNumber, ViewNumber, consensus, prepare,
}
use p2p_pbft.Pbft.State.{broadcast, ConsensusInstance, PbftConsensus, replica_for, put_instance}
use p2p_pbft.Pbft.Quiet.{voices}
use p2p_pbft.Pbft.Normal.{propose, accept_pre_prepare, pre_prepared_digest}
use p2p_pbft.Pbft.Votes.{votes, proposed, settled, VotedOf, Voted, VotedOf-put}

module _ (x : External) (v : ViewNumber) where
  -- What is sent next is no second vote in view `v`.
  abbrev pub Fresh : Prepare → PbftConsensus x → Type 0
  Fresh p u = Voted x v (record u { outgoing = broadcast (consensus (prepare p)) ∷ u.outgoing })

  -- A prepare of another view.
  other_view : (p : Prepare) (u : PbftConsensus x) → p.view ≢ v → Voted x v u → Fresh p u
  other_view p u other h = let differs : (p.view == v) ≡ false = ground arith in rw (differs) h

  -- The first prepare of view `v` for a number that is settled only now.
  first_vote :
      {replicas : List NodeId} {node_id : NodeId} {low stable : ℕ}
      {log : List (SequenceNumber × ConsensusInstance)} {cast : List ℕ} (k : ℕ)
      (i : ConsensusInstance)
      → settled low log k ≡ false
      → is_some i.pre_prepare ≡ true
      → VotedOf x v replicas node_id low stable log cast
      → VotedOf x v replicas node_id low stable (insert ℕ_discrete k i log) (k ∷ cast)
  first_vote {low = low} {log = log} k i new has_pp h =
      let put = VotedOf-put x v k i h (λ _. has_pp) in
      record {
        follows = h.follows;
        in_step = h.in_step;
        all_settled = λ j m. elim (Bool-cases (settled low (insert ℕ_discrete k i log) j)) [
          | inl done ↦ done
          | inr left ↦ absurd (
              Or.elim ⊥_prop (mem-cons.0 m)
                (λ e. ground (arith, lookup-insert ℕ_discrete j k i log))
                (λ later. let done = put.all_settled j later in absurd (ground arith)))
        ];
        once = Nodup-cons.1 (λ m. absurd (ground (arith, h.all_settled k m)), h.once);
      }

  first_or_other :
      (view k : ℕ) (i : ConsensusInstance) (u : PbftConsensus x)
      → settled u.state.low_watermark u.state.log k ≡ false
      → is_some i.pre_prepare ≡ true
      → Voted x v u
      → VotedOf x v u.state.replicas u.state.node_id u.state.low_watermark u.state.stable_checkpoint
          (insert ℕ_discrete k i u.state.log)
          (let rest = votes v (voices u.outgoing) in if view == v then k ∷ rest else rest)
  first_or_other view k i u new has_pp h = elim (Bool-cases (view == v)) [
    | inl in_view ↦ rw (in_view) (first_vote k i new has_pp h)
    | inr other ↦ rw (other) (VotedOf-put x v k i h (λ _. has_pp))
  ]

  pre_prepared : (o : Option ConsensusInstance) → is_some (pre_prepared_digest o) ≡ proposed o
  pre_prepared none = refl
  pre_prepared (some i) = ground arith

  pub accept_pre_prepare-Fresh :
      (now : ℕ) (pp : PrePrepare) (w : PbftConsensus x)
      → Voted x v w
      → Ends (Voted x v) Fresh (accept_pre_prepare x now pp w)
  unfolding accept_pre_prepare put_instance
  accept_pre_prepare-Fresh now pp w h = gets-Ends _ _ _ (
      guard-Ends _ _ _ _ h λ in_view. unwrap-Ends _ _ _ h λ leader leads.
        guard-Ends _ _ _ _ h λ from_leader. guard-Ends _ _ _ _ h λ in_range.
          guard-Ends _ _ _ _ h λ signed. guard-Ends _ _ _ _ h λ agreed.
            return_if-Ends _ _ _ h λ new. guard-Ends _ _ _ _ h λ right_digest. modify-Ends _ _ _ (
              modify-Ends _ _ _ (
                pure-Ends _ _ _ (
                  first_or_other pp.view pp.sequence _ w
                    (ground (arith, pre_prepared (lookup ℕ_discrete pp.sequence w.state.log))) refl
                    h))))

  -- A replica does not lead a view that it follows in.
  leads_other :
      (u : PbftConsensus x)
      → replica_for x u.state.replicas u.state.view ≡ some u.state.node_id
      → Voted x v u
      → (u.state.view == v) ≡ false
  leads_other u leads h = elim (Bool-cases (u.state.view == v)) [
    | inl in_view ↦
        let same_view : u.state.view ≡ v = ground arith in
        absurd (
          h.follows
            (subst (λ t. replica_for x u.state.replicas t ≡ some u.state.node_id) same_view leads))
    | inr other ↦ other
  ]

  other_prepare :
      (view k : ℕ) (cast : List ℕ)
      → (view == v) ≡ false
      → (if view == v then k ∷ cast else cast) ≡ cast
  other_prepare view k cast other = rw (other) refl

  pub propose-Fresh :
      (now : ℕ) (r : Request) (w : PbftConsensus x)
      → replica_for x w.state.replicas w.state.view ≡ some w.state.node_id
      → Voted x v w
      → Ends (Voted x v) (λ (_, p). Fresh p) (propose x now r w)
  unfolding propose put_instance
  propose-Fresh now r w leads h = gets-Ends _ _ _ (
      return_if-Ends _ _ _ h λ new. modify-Ends _ _ _ (
        gets-Ends _ _ _ (
          guard-Ends _ _ _ _ h λ in_range. modify-Ends _ _ _ (
            pure-Ends _ _ _ (
              subst (VotedOf x v _ _ _ _ _) (sym (other_prepare _ _ _ (leads_other w leads h)))
                (VotedOf-put x v _ _ h (λ _. refl)))))))
