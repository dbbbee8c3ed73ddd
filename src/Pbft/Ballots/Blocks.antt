-- ===== src/Pbft/Ballots/Blocks.antt =====
-- src/pbft.rs: the blocks that write entries, for where the prepares in the log come from.
use p2p_pbft.Base.{
  ℕ, ◌≡◌, refl, sym, subst, inl, inr, ◌∷◌, true, arith, ℕ_discrete, bytes_discrete, wrap64, ◌+◌,
}
use p2p_pbft.Base.Map.{insert}
use p2p_pbft.Base.Flow.Stays.{Stays, Stays-bind, Stays-seq, Stays-call, stays_rules}
use p2p_pbft.Base.Flow.Ends.{
  Ends, bind-Ends, gets-Ends, modify-Ends, guard-Ends, return_if-Ends, unwrap-Ends, branch-Ends,
  some_or_return-Ends, pure-Ends, write-Ends, Ends-Stays, Stays-of,
}
use p2p_pbft.External.{External}
use p2p_pbft.Message.{
  NodeId, Request, PrePrepare, Prepare, Commit, Checkpoint, consensus, prepare, request_digest,
}
use p2p_pbft.Pbft.State.{
  broadcast, ConsensusInstance, PbftState, PbftConsensus, put_instance, get_or_create_instance,
  sign,
}
use p2p_pbft.Pbft.Signing.{proposal_data, verify_node_signature}
use p2p_pbft.Pbft.Advance.{
  commit_instance, make_commit, try_advance_to_committed, try_advance_to_prepared,
}
use p2p_pbft.Pbft.Normal.{
  propose, lead, handle_request, accept_pre_prepare, handle_pre_prepare, accept_prepare,
  handle_prepare, accept_commit, handle_commit,
}
use p2p_pbft.Pbft.Maintenance.{stabilize, handle_checkpoint}
use p2p_pbft.Pbft.Process.{Input, received}
use p2p_pbft.Pbft.Histories.{Handled}
use p2p_pbft.Pbft.Quiet.{execute-Still}
use p2p_pbft.Pbft.Ballots.{
  Cast, cast_too, VoteOk, BallotOk, BallotsOf, BallotsIn, Ballots, BallotOk-insert, BallotsOf-put,
  BallotsOf-retain, BallotOk-lent, BallotsOf-sent,
}

-- A prepare that is signed by the replica that it names is genuine.
abbrev pub Admits : (x : External) → (Prepare → Type 0) → Input → Type 0
Admits x Genuine (received (prepare p)) =
    verify_node_signature x p.replica_id (proposal_data p.view p.sequence p.digest) p.signature
      ≡ true
    → Genuine p
Admits x Genuine _ = Unit {0}

module _ (x : External) (Genuine : Prepare → Type 0) (me : NodeId) where
  abbrev pub P : PbftConsensus x → Type 0
  P = Ballots Genuine me x

  make_commit-Ballots : (k : ℕ) → Stays P (make_commit x k)
  unfolding make_commit put_instance
  make_commit-Ballots k = Stays-of _ (λ w h. gets-Ends _ _ _ (
      some_or_return-Ends _ _ _ h λ i found. return_if-Ends _ _ _ h λ has_pp.
        return_if-Ends _ _ _ h λ is_pre_prepared. return_if-Ends _ _ _ h λ enough.
          unwrap-Ends _ _ _ h λ d e.
            modify-Ends _ _ _
              (pure-Ends _ _ _ (BallotsOf-put Genuine me w.state.log k _ h (h.all k i found)))))

  commit_instance-Ballots : (k : ℕ) → Stays P (commit_instance x k)
  unfolding commit_instance put_instance
  commit_instance-Ballots k = Stays-of _ (λ w h. gets-Ends _ _ _ (
      some_or_return-Ends _ _ _ h λ i found. return_if-Ends _ _ _ h λ is_prepared.
        return_if-Ends _ _ _ h λ enough. modify-Ends _ _ _ (
          modify-Ends _ _ _
            (pure-Ends _ _ _ (BallotsOf-put Genuine me w.state.log k _ h (h.all k i found))))))

  try_advance_to_committed-Ballots : (k : ℕ) → Stays P (try_advance_to_committed x k)
  unfolding try_advance_to_committed
  try_advance_to_committed-Ballots k =
      Stays-bind _ _ (commit_instance-Ballots k) (execute-Still x (BallotsIn Genuine me x) k)

  try_advance_to_prepared-Ballots : (k : ℕ) → Stays P (try_advance_to_prepared x k)
  unfolding try_advance_to_prepared
  try_advance_to_prepared-Ballots k =
      search (stays_rules, make_commit-Ballots, try_advance_to_committed-Ballots) depth 30

  accept_prepare-Ballots :
      (now : ℕ) (p : Prepare)
      → Admits x Genuine (received (prepare p))
      → Stays P (accept_prepare x now p)
  unfolding accept_prepare put_instance
  accept_prepare-Ballots now p genuine = Stays-of _ (λ w h. gets-Ends _ _ _ (
      guard-Ends _ _ _ _ h λ in_view. guard-Ends _ _ _ _ h λ in_range.
        guard-Ends _ _ _ _ h λ signed.
          let k = p.sequence in
          let i = get_or_create_instance x now k w.state in
          let lent = BallotOk-lent Genuine me x now k w.state h in
          let h1 = BallotsOf-put Genuine me w.state.log k i h lent in
          modify-Ends _ _ _ (
            guard-Ends _ _ _ _ h1 λ admits. return_if-Ends _ _ _ h1 λ new_vote. write-Ends _ _ _ (
              BallotsOf-put Genuine me (insert ℕ_discrete k i w.state.log) k _ h1 (
                BallotOk-insert Genuine me i.prepares p.replica_id p lent
                  (record { own = refl; numbered = refl; source = inl (genuine signed) }))))))

  accept_commit-Ballots : (now : ℕ) (c : Commit) → Stays P (accept_commit x now c)
  unfolding accept_commit put_instance
  accept_commit-Ballots now c = Stays-of _ (λ w h. gets-Ends _ _ _ (
      guard-Ends _ _ _ _ h λ in_view. guard-Ends _ _ _ _ h λ in_range.
        guard-Ends _ _ _ _ h λ signed.
          let k = c.sequence in
          let i = get_or_create_instance x now k w.state in
          let lent = BallotOk-lent Genuine me x now k w.state h in
          let h1 = BallotsOf-put Genuine me w.state.log k i h lent in
          modify-Ends _ _ _ (
            guard-Ends _ _ _ _ h1 λ admits. return_if-Ends _ _ _ h1 λ new_vote.
              write-Ends _ _ _
                (BallotsOf-put Genuine me (insert ℕ_discrete k i w.state.log) k _ h1 lent))))

  -- The replica's own prepare is stored, and sent next.
  abbrev Sent : Prepare → PbftConsensus x → Type 0
  Sent p u = P (record u { outgoing = broadcast (consensus (prepare p)) ∷ u.outgoing })

  own_vote :
      (cast : Cast) (p : Prepare)
      → p.replica_id ≡ me
      → VoteOk Genuine me (cast_too p cast) p.sequence p.replica_id p
  own_vote cast p mine = record { own = refl; numbered = refl; source = inr (mine, ground arith) }

  -- The entry with the replica's own prepare.
  put_own :
      (now : ℕ) (p : Prepare) (i : ConsensusInstance) (s : PbftState x) (cast : Cast)
      → p.replica_id ≡ me
      → i.prepares
        ≡ insert bytes_discrete p.replica_id p (get_or_create_instance x now p.sequence s).prepares
      → BallotsOf Genuine me s.node_id cast s.log
      → BallotsOf Genuine me s.node_id (cast_too p cast) (insert ℕ_discrete p.sequence i s.log)
  put_own now p i s cast mine added h =
      let h1 = BallotsOf-sent Genuine me cast p h in
      let lent = BallotOk-lent Genuine me x now p.sequence s h1 in
      BallotsOf-put Genuine me s.log p.sequence i h1 (
        subst (BallotOk Genuine me (cast_too p cast) p.sequence) (sym added)
          (BallotOk-insert Genuine me _ p.replica_id p lent (own_vote cast p mine)))

  accept_pre_prepare-Sent :
      (now : ℕ) (pp : PrePrepare) (w : PbftConsensus x)
      → P w
      → Ends P Sent (accept_pre_prepare x now pp w)
  unfolding accept_pre_prepare put_instance
  accept_pre_prepare-Sent now pp w h = gets-Ends _ _ _ (
      guard-Ends _ _ _ _ h λ in_view. unwrap-Ends _ _ _ h λ leader leads.
        guard-Ends _ _ _ _ h λ from_leader. guard-Ends _ _ _ _ h λ in_range.
          guard-Ends _ _ _ _ h λ signed. guard-Ends _ _ _ _ h λ agreed.
            return_if-Ends _ _ _ h λ new. guard-Ends _ _ _ _ h λ right_digest.
              let p : Prepare = record {
                view = pp.view;
                sequence = pp.sequence;
                digest = pp.digest;
                replica_id = w.state.node_id;
                signature = sign x w.state (proposal_data pp.view pp.sequence pp.digest);
              } in
              modify-Ends _ _ _
                (modify-Ends _ _ _ (pure-Ends _ _ _ (put_own now p _ w.state _ h.is_me refl h))))

  propose-Sent :
      (now : ℕ) (r : Request) (w : PbftConsensus x)
      → P w
      → Ends P (λ (pp, p). Sent p) (propose x now r w)
  unfolding propose put_instance
  propose-Sent now r w h = gets-Ends _ _ _ (
      return_if-Ends _ _ _ h λ new. modify-Ends _ _ _ (
        gets-Ends _ _ _ (
          guard-Ends _ _ _ _ h λ in_range.
            let s = record w.state { sequence = wrap64 (w.state.sequence + 1) } in
            let p : Prepare = record {
              view = s.view;
              sequence = s.sequence;
              digest = request_digest x r;
              replica_id = s.node_id;
              signature = sign x s (proposal_data s.view s.sequence (request_digest x r));
            } in
            modify-Ends _ _ _ (pure-Ends _ _ _ (put_own now p _ s _ h.is_me refl h)))))

  lead-Ballots : (now : ℕ) (r : Request) → Stays P (lead x now r)
  unfolding lead
  lead-Ballots now r = Stays-of _ (λ w h.
      bind-Ends _ _ w (propose-Sent now r w h) (λ (pp, p) u sent. modify-Ends _ _ _ (
        modify-Ends _ _ _
          (Ends-Stays _ _ (Stays-call _ (try_advance_to_prepared-Ballots pp.sequence)) sent))))

  handle_request-Ballots : (now : ℕ) (r : Request) → Stays P (handle_request x now r)
  unfolding handle_request
  handle_request-Ballots now r = search (stays_rules, lead-Ballots) depth 30

  handle_pre_prepare-Ballots : (now : ℕ) (pp : PrePrepare) → Stays P (handle_pre_prepare x now pp)
  unfolding handle_pre_prepare
  handle_pre_prepare-Ballots now pp = Stays-of _ (λ w h.
      bind-Ends _ _ w (accept_pre_prepare-Sent now pp w h) (λ p u sent.
        modify-Ends _ _ _
          (Ends-Stays _ _ (Stays-call _ (try_advance_to_prepared-Ballots p.sequence)) sent)))

  handle_prepare-Ballots :
      (now : ℕ) (p : Prepare)
      → Admits x Genuine (received (prepare p))
      → Stays P (handle_prepare x now p)
  unfolding handle_prepare
  handle_prepare-Ballots now p genuine =
      Stays-seq _ _ (accept_prepare-Ballots now p genuine)
        (Stays-call _ (try_advance_to_prepared-Ballots p.sequence))

  handle_commit-Ballots : (now : ℕ) (c : Commit) → Stays P (handle_commit x now c)
  unfolding handle_commit
  handle_commit-Ballots now c =
      Stays-seq _ _ (accept_commit-Ballots now c)
        (Stays-call _ (try_advance_to_committed-Ballots c.sequence))

  handle_checkpoint-Ballots : (c : Checkpoint) → Stays P (handle_checkpoint x c)
  unfolding handle_checkpoint stabilize
  handle_checkpoint-Ballots c = Stays-of _ (λ w h. modify-Ends _ _ _ (
      gets-Ends _ _ _ (
        branch-Ends _ _ _ _
          (λ stable. write-Ends _ _ _ (BallotsOf-retain Genuine me w.state.log _ h))
          (λ waits. pure-Ends _ _ _ h))))

  pub handled-Ballots : Handled x P (Admits x Genuine)
  handled-Ballots = record {
    on_request = handle_request-Ballots;
    on_pre_prepare = λ now pp _. handle_pre_prepare-Ballots now pp;
    on_prepare = handle_prepare-Ballots;
    on_commit = handle_commit-Ballots;
    on_checkpoint = λ c _. handle_checkpoint-Ballots c;
  }
