-- ===== src/Pbft/Proposals/Once.antt =====
-- src/pbft.rs: no sequence number is given to two requests.
use mathlib.Core.List.{Nodup}
use p2p_pbft.Base.{
  ℕ, suc, ◌+◌, ◌^◌, ◌<◌, ◌≡◌, sym, subst, List, [], ◌∷◌, length, arith, Bool, true, false, same,
}
use p2p_pbft.Base.Flow.{Step, next, stop, flow, after, call, branch, ◌>>◌}
use p2p_pbft.Base.Flow.Ends.{Ends, bind-Ends, Ends-after, after-Ends}
use p2p_pbft.Base.Flow.Stays.{Stays, Stays-call, Stays-gets, Stays-unwrap, Stays-pure, stays_rules}
use p2p_pbft.External.{External}
use p2p_pbft.Message.{
  NodeId, Request, PrePrepare, ConsensusMessage, Prepare, consensus, request, pre_prepare, prepare,
  commit, reply, view_change, new_view, checkpoint,
}
use p2p_pbft.Crypto.{KeyPair}
use p2p_pbft.Pbft.Config.{PbftConfig, PbftError}
use p2p_pbft.Pbft.State.{
  broadcast, PbftConsensus, Engine, broadcast_consensus, send, send_to, state_new, consensus_new,
}
use p2p_pbft.Pbft.Advance.{try_advance_to_prepared}
use p2p_pbft.Pbft.Normal.{propose, lead, handle_request}
use p2p_pbft.Pbft.Process.{
  Input, received, submitted, timer, suspicion, process_message, process_input, process_all,
}
use p2p_pbft.Pbft.Quiet.{voices}
use p2p_pbft.Pbft.Proposals.{
  proposals, Below, Nodup-Below, Counted, try_advance_to_prepared-Counted, Numbered,
  propose-Numbered, handle_pre_prepare-Counted, handle_prepare-Counted, handle_commit-Counted,
  handle_checkpoint-Counted, maintained-Counted, proposals-voices,
}

module _ (x : External) (n : ℕ) where
  -- The proposal and the vote for it are sent, and the vote may be the last that is missing.
  after_proposal :
      (pp : PrePrepare) (p : Prepare) (u : PbftConsensus x)
      → Numbered x n (pp, p) u
      → Counted x (suc n) (
          after (
            (broadcast_consensus x (ConsensusMessage.pre_prepare pp)
                >> (broadcast_consensus x (ConsensusMessage.prepare p)
                    >> call (try_advance_to_prepared x pp.sequence)))
              u))
  unfolding flow
  after_proposal pp p u (most, is_next, below) =
      let v = record u {
        outgoing =
            broadcast (consensus (prepare p)) ∷ broadcast (consensus (pre_prepare pp)) ∷ u.outgoing;
      } in
      (Stays-call _ (try_advance_to_prepared-Counted x (suc n) pp.sequence)).at v (
        most,
        (omega arith, subst (λ k. Below k (proposals (voices u.outgoing))) (sym is_next) below),
      )

  lead-Counted :
      (now : ℕ) (r : Request) (w : PbftConsensus x)
      → suc n < 2 ^ 64
      → Counted x n w
      → Counted x (suc n) (after (lead x now r w))
  unfolding lead
  lead-Counted now r w small c = Ends-after (lead x now r w) (
      bind-Ends (propose x now r) _ w (propose-Numbered x n now r w small c)
        (λ (pp, p) u h. after-Ends _ (after_proposal pp p u h)))

  Counted-suc : (w : PbftConsensus x) → Counted x n w → Counted x (suc n) w
  Counted-suc w (most, below) = (omega arith, below)

  Stays-Counted :
      {A : Type 0} (m : Engine x A) (w : PbftConsensus x)
      → Stays (Counted x n) m
      → Counted x n w
      → Counted x (suc n) (after (m w))
  Stays-Counted m w h c = Counted-suc (after (m w)) (h.at w c)

  forwards-Counted :
      (p : NodeId) (r : Request)
      → Stays (Counted x n) (send x (send_to p (consensus (ConsensusMessage.request r))))
  forwards-Counted p r = search stays_rules depth 5

  -- Code that leaves the counter and the proposals alone.
  counts_on :
      {A : Type 0} (m : Engine x A) (w : PbftConsensus x)
      → Stays (Counted x n) m
      → Counted x n w
      → Ends (Counted x (suc n)) (λ _. Counted x n) (m w)
  counts_on m w h c = up (m w) (h.at w c)
    where
      up :
          {A : Type 0} (t : Step (PbftConsensus x) PbftError A)
          → Counted x n (after t)
          → Ends (Counted x (suc n)) (λ _. Counted x n) t
      up (next a u) c = record { met = c }
      up (stop r u) c = record { met = Counted-suc u c }

  branch_counts :
      (b : Bool) (m k : Engine x (Unit {0})) (w : PbftConsensus x)
      → Counted x (suc n) (after (m w))
      → Counted x (suc n) (after (k w))
      → Counted x (suc n) (after (branch b m k w))
  unfolding flow
  branch_counts true m k w h h' = h
  branch_counts false m k w h h' = h'

  handle_request-Counted :
      (now : ℕ) (r : Request) (w : PbftConsensus x)
      → suc n < 2 ^ 64
      → Counted x n w
      → Counted x (suc n) (after (handle_request x now r w))
  unfolding handle_request
  handle_request-Counted now r w small c = Ends-after (handle_request x now r w) (
      bind-Ends _ _ w (counts_on _ w (Stays-gets _ _) c) (λ s u h.
        bind-Ends _ _ u (counts_on _ u (Stays-unwrap _ _) h) (λ p v g. after-Ends _ (
          branch_counts (same p s.node_id) _ _ v (lead-Counted now r v small g)
            (Stays-Counted _ v (forwards-Counted p r) g)))))

  process_input-Counted :
      (now : ℕ) (i : Input) (w : PbftConsensus x)
      → suc n < 2 ^ 64
      → Counted x n w
      → Counted x (suc n) (after (process_input x now i w))
  unfolding process_input process_message
  process_input-Counted now (received (request r)) w small c =
      handle_request-Counted now r w small c
  process_input-Counted now (received (pre_prepare pp)) w small c =
      Stays-Counted _ w (handle_pre_prepare-Counted x n now pp) c
  process_input-Counted now (received (prepare p)) w small c =
      Stays-Counted _ w (handle_prepare-Counted x n now p) c
  process_input-Counted now (received (commit m)) w small c =
      Stays-Counted _ w (handle_commit-Counted x n now m) c
  process_input-Counted now (received (reply r)) w small c = Stays-Counted _ w (Stays-pure _ tt) c
  process_input-Counted now (received (view_change vc)) w small c =
      Stays-Counted _ w ((maintained-Counted x n).on_view_change vc) c
  process_input-Counted now (received (new_view nv)) w small c =
      Stays-Counted _ w ((maintained-Counted x n).on_new_view now nv) c
  process_input-Counted now (received (checkpoint m)) w small c =
      Stays-Counted _ w (handle_checkpoint-Counted x n m) c
  process_input-Counted now (submitted r) w small c = handle_request-Counted now r w small c
  process_input-Counted now timer w small c =
      Stays-Counted _ w ((maintained-Counted x n).on_timer now) c
  process_input-Counted now suspicion w small c =
      Stays-Counted _ w (maintained-Counted x n).on_suspicion c

module _ (x : External) where
  process_all-Counted :
      (inputs : List (ℕ × Input)) (n : ℕ) (w : PbftConsensus x)
      → length inputs + n < 2 ^ 64
      → Counted x n w
      → Counted x (length inputs + n) (process_all x inputs w)
  unfolding process_all
  process_all-Counted [] n w small (most, below) = (omega arith, below)
  process_all-Counted ((now, i) ∷ is) n w small c =
      let sum : length is + suc n ≡ suc (length is) + n = omega arith in
      subst (λ m. Counted x m (process_all x is (after (process_input x now i w)))) sum
        (process_all-Counted is (suc n) _ (omega arith)
          (process_input-Counted x n now i w (omega arith) c))

  -- Over any history of fewer than 2^64 inputs of a new engine, whatever views it leads, no two of the
  -- pre-prepares that it sends have the same sequence number.
  pub proposes_once :
      (now : ℕ) (node_id : NodeId) (keypair : KeyPair x) (replicas : List NodeId)
      (config : PbftConfig) (inputs : List (ℕ × Input))
      → length inputs < 2 ^ 64
      → let w = consensus_new x (state_new x now node_id keypair replicas config) in
        Nodup (proposals (process_all x inputs w).outgoing)
  unfolding consensus_new state_new
  proposes_once now node_id keypair replicas config inputs small =
      let (most, below) = process_all-Counted inputs 0 _ (omega arith) (omega arith, tt) in
      let out =
        (process_all x inputs
          (consensus_new x (state_new x now node_id keypair replicas config))).outgoing in
      subst Nodup (proposals-voices out) (Nodup-Below _ _ below)
