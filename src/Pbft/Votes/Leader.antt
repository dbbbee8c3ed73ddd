-- ===== src/Pbft/Votes/Leader.antt =====
-- src/pbft.rs: the prepares that a leader sends in the view that it leads.
use mathlib.Core.List.{
  Nodup, Nodup-cons, mem-cons_self, Subset, Subset-refl, cons-subset, subset-cons_of_subset,
}
use p2p_pbft.Base.{
  ℕ, ◌^◌, ◌<◌, ◌≡◌, ◌≢◌, refl, sym, subst, inl, inr, List, [], ◌∷◌, some, true, false, ◌==◌,
  Bool-cases, same, if◌then◌else◌, arith, length,
}
use p2p_pbft.Base.Flow.Stays.{Stays, Stays-call, stays_rules}
use p2p_pbft.Base.Flow.Ends.{
  Ends, bind-Ends, gets-Ends, modify-Ends, guard-Ends, return_if-Ends, unwrap-Ends, pure-Ends,
  Ends-Stays, Stays-of,
}
use p2p_pbft.External.{External}
use p2p_pbft.Message.{
  NodeId, Request, PrePrepare, Prepare, ViewNumber, consensus, pre_prepare, prepare,
}
use p2p_pbft.Crypto.{KeyPair}
use p2p_pbft.Pbft.Config.{PbftConfig}
use p2p_pbft.Pbft.State.{
  broadcast, PbftConsensus, state_new, consensus_new, put_instance, primary, replica_for,
}
use p2p_pbft.Pbft.Normal.{propose, lead, handle_request, accept_pre_prepare, handle_pre_prepare}
use p2p_pbft.Pbft.Process.{Input, received, process_all}
use p2p_pbft.Pbft.Histories.{Handled, AllAdmitted, process_all-Stays}
use p2p_pbft.Pbft.Quiet.{
  still, bare, try_advance_to_prepared-Quiet, handle_prepare-Quiet, handle_commit-Quiet,
  handle_checkpoint-Quiet, maintained_quietly,
}
use p2p_pbft.Pbft.Proposals.{proposals, proposals-voices}
use p2p_pbft.Pbft.Proposals.Once.{proposes_once}
use p2p_pbft.Pbft.Votes.{votes, votes-voices}

-- The replica leads view `v`, and its prepares of this view are for numbers that it proposed, one each.
record LedOf (x : External) (v : ViewNumber) (me : NodeId) (replicas : List NodeId)
    (node_id : NodeId) (numbers cast : List ℕ) : Type 0 where
  pub leads : replica_for x replicas v ≡ some me
  pub is_me : node_id ≡ me
  pub once : Nodup numbers → Nodup cast
  pub among : Subset cast numbers

-- A pre-prepare of another node.
abbrev pub FromOthers : NodeId → Input → Type 0
FromOthers me (received (pre_prepare pp)) = pp.primary_id ≢ me
FromOthers me _ = Unit {0}

module _ (x : External) (v : ViewNumber) (me : NodeId) where
  abbrev LedIn : PbftConsensus x → Type 0
  LedIn w =
      LedOf x v me w.state.replicas w.state.node_id (proposals w.outgoing) (votes v w.outgoing)

  abbrev Led : PbftConsensus x → Type 0
  Led w = LedIn (bare x (still x w))

  -- A proposal and the prepare for it.
  proposal_with_vote :
      {replicas : List NodeId} {node_id : NodeId} {numbers cast : List ℕ} (k view : ℕ)
      → LedOf x v me replicas node_id numbers cast
      → LedOf x v me replicas node_id (k ∷ numbers) (if view == v then k ∷ cast else cast)
  proposal_with_vote {numbers = numbers} {cast = cast} k view h = elim (Bool-cases (view == v)) [
    | inl in_view ↦ rw (in_view) record {
      leads = h.leads;
      is_me = h.is_me;
      once = λ d.
          let (new, tail) = Nodup-cons.0 d in Nodup-cons.1 (λ m. new (h.among k m), h.once tail);
      among = cons-subset.1 (mem-cons_self, subset-cons_of_subset k h.among);
    }
    | inr other ↦ rw (other) record {
      leads = h.leads;
      is_me = h.is_me;
      once = λ d. h.once (Nodup-cons.0 d).1;
      among = subset-cons_of_subset k h.among;
    }
  ]

  -- What is sent next is the proposal and the prepare for it.
  abbrev Proposed : PrePrepare × Prepare → PbftConsensus x → Type 0
  Proposed (pp, p) u = Led (record u {
    outgoing =
        broadcast (consensus (prepare p)) ∷ broadcast (consensus (pre_prepare pp)) ∷ u.outgoing;
  })

  propose-Led :
      (now : ℕ) (r : Request) (w : PbftConsensus x) → Led w → Ends Led Proposed (propose x now r w)
  unfolding propose put_instance
  propose-Led now r w h = gets-Ends _ _ _ (
      return_if-Ends _ _ _ h λ new. modify-Ends _ _ _ (
        gets-Ends _ _ _ (
          guard-Ends _ _ _ _ h
            λ in_range. modify-Ends _ _ _ (pure-Ends _ _ _ (proposal_with_vote _ _ h)))))

  lead-Led : (now : ℕ) (r : Request) → Stays Led (lead x now r)
  unfolding lead
  lead-Led now r = Stays-of _ (λ w h. bind-Ends _ _ w (propose-Led now r w h) (λ (pp, p) u sent.
      modify-Ends _ _ _ (
        modify-Ends _ _ _ (
          Ends-Stays _ _ (Stays-call _ (try_advance_to_prepared-Quiet x LedIn pp.sequence)) sent))))

  handle_request-Led : (now : ℕ) (r : Request) → Stays Led (handle_request x now r)
  unfolding handle_request
  handle_request-Led now r = search (stays_rules, lead-Led) depth 30

  not_in_view :
      (view k : ℕ) (cast : List ℕ) → view ≢ v → (if view == v then k ∷ cast else cast) ≡ cast
  not_in_view view k cast other =
      let differs : (view == v) ≡ false = ground arith in rw (differs) refl

  -- A pre-prepare of another node is accepted in the views of that node only.
  not_my_view :
      (pp : PrePrepare) (leader : NodeId) (w : PbftConsensus x)
      → Led w
      → pp.primary_id ≢ me
      → replica_for x w.state.replicas w.state.view ≡ some leader
      → same pp.primary_id leader ≡ true
      → (pp.view == w.state.view) ≡ true
      → pp.view ≢ v
  not_my_view pp leader w h other leads from_leader in_view same_view =
      let here : w.state.view ≡ v = ground arith in
      let mine : replica_for x w.state.replicas w.state.view ≡ some me =
        subst (λ u. replica_for x w.state.replicas u ≡ some me) (sym here) h.leads in
      let is_leader : leader ≡ me = cc in other (ground arith)

  accept_pre_prepare-Led :
      (now : ℕ) (pp : PrePrepare) (w : PbftConsensus x)
      → pp.primary_id ≢ me
      → Led w
      → Ends Led
          (λ p u. Led (record u { outgoing = broadcast (consensus (prepare p)) ∷ u.outgoing }))
          (accept_pre_prepare x now pp w)
  unfolding accept_pre_prepare put_instance primary
  accept_pre_prepare-Led now pp w other h = gets-Ends _ _ _ (
      guard-Ends _ _ _ _ h λ in_view. unwrap-Ends _ _ _ h λ leader leads.
        guard-Ends _ _ _ _ h λ from_leader. guard-Ends _ _ _ _ h λ in_range.
          guard-Ends _ _ _ _ h λ signed. guard-Ends _ _ _ _ h λ agreed.
            return_if-Ends _ _ _ h λ new. guard-Ends _ _ _ _ h λ right_digest. modify-Ends _ _ _ (
              modify-Ends _ _ _ (
                pure-Ends _ _ _ (
                  subst (LedOf x v me _ _ _)
                    (sym (
                      not_in_view pp.view pp.sequence _
                        (not_my_view pp leader w h other leads from_leader in_view)))
                    h))))

  handle_pre_prepare-Led :
      (now : ℕ) (pp : PrePrepare) → pp.primary_id ≢ me → Stays Led (handle_pre_prepare x now pp)
  unfolding handle_pre_prepare
  handle_pre_prepare-Led now pp other = Stays-of _ (λ w h.
      bind-Ends _ _ w (accept_pre_prepare-Led now pp w other h) (λ p u sent.
        modify-Ends _ _ _
          (Ends-Stays _ _ (Stays-call _ (try_advance_to_prepared-Quiet x LedIn p.sequence)) sent)))

  handled-Led : Handled x Led (FromOthers me)
  handled-Led = record {
    on_request = handle_request-Led;
    on_pre_prepare = handle_pre_prepare-Led;
    on_prepare = λ now p _. handle_prepare-Quiet x LedIn now p;
    on_commit = handle_commit-Quiet x LedIn;
    on_checkpoint = λ c _. handle_checkpoint-Quiet x LedIn c;
  }

  -- Over any history of fewer than 2^64 inputs of a new engine, in which no pre-prepare comes in its own
  -- name, it sends at most one prepare for each sequence number in a view that it leads.
  pub leader_votes_once :
      (now : ℕ) (keypair : KeyPair x) (replicas : List NodeId) (config : PbftConfig)
      (inputs : List (ℕ × Input))
      → length inputs < 2 ^ 64
      → AllAdmitted (FromOthers me) inputs
      → replica_for x replicas v ≡ some me
      → let w = consensus_new x (state_new x now me keypair replicas config) in
        Nodup (votes v (process_all x inputs w).outgoing)
  unfolding consensus_new state_new
  leader_votes_once now keypair replicas config inputs small others leads =
      let w = consensus_new x (state_new x now me keypair replicas config) in
      let u = process_all x inputs w in
      let h : Led w = record {
        leads = leads;
        is_me = refl;
        once = λ d. d;
        among = Subset-refl [];
      } in
      let kept = process_all-Stays x handled-Led (maintained_quietly x LedIn) inputs w others h in
      let distinct = proposes_once x now me keypair replicas config inputs small in
      subst Nodup (votes-voices v u.outgoing)
        (kept.once (subst Nodup (sym (proposals-voices u.outgoing)) distinct))
