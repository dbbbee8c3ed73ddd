-- ===== src/Pbft/Refused.antt =====
-- src/pbft.rs: a message that is refused with an error.
pub mod Checked
use p2p_pbft.Base.{
  ℕ, ◌≡◌, ◌≢◌, refl, ap, inl, inr, [], Option, none, some, Bool, true, false, arith, Option-cases,
  ℕ_discrete, bytes_discrete,
}
use p2p_pbft.Base.Map.{lookup, insert, contains_key, lookup-insert}
use p2p_pbft.Base.Flow.{err, outcome, after}
use p2p_pbft.Base.Flow.Ends.{
  Ends, gets-Ends, modify-Ends, guard-Ends, guard-Ends_known, return_if-Ends, return_if-Ends_known,
  unwrap-Ends, pure-Ends, write-Ends,
}
use p2p_pbft.Base.Flow.Errors.{
  NoErr, OnErr, NoErr-bind, NoErr-pure, NoErr-modify, NoErr-OnErr, bind-OnErr, seq-OnErr,
  gets-OnErr, unwrap-OnErr, branch-OnErr, no_err_rules,
}
use p2p_pbft.External.{External}
use p2p_pbft.Message.{
  Hash, Request, PrePrepare, Prepare, Commit, ViewChange, NewView, Checkpoint, ConsensusMessage,
  request, pre_prepare, prepare, commit, reply, view_change, new_view, checkpoint,
}
use p2p_pbft.Pbft.Config.{PbftError}
use p2p_pbft.Pbft.State.{
  ConsensusInstance, PbftState, PbftConsensus, put_instance, get_or_create_instance, instance_new,
}
use p2p_pbft.Pbft.Advance.{
  make_checkpoint, try_checkpoint, commit_instance, execute, try_advance_to_committed, make_commit,
  try_advance_to_prepared,
}
use p2p_pbft.Pbft.Normal.{
  propose, lead, handle_request, accept_pre_prepare, handle_pre_prepare, accept_prepare,
  handle_prepare, accept_commit, handle_commit, pre_prepare_admits, digest_admits,
}
use p2p_pbft.Pbft.Maintenance.{
  handle_checkpoint, lead_new_view, collect_view_change, announce, handle_view_change,
  handle_new_view,
}
use p2p_pbft.Pbft.Process.{process_message}
use p2p_pbft.Pbft.Refused.Checked.{
  try_advance_to_committed-NoErr, try_advance_to_prepared-NoErr, handle_view_change-NoErr,
  handle_new_view-NoErr, handle_checkpoint-NoErr,
}

module _ (x : External) where
  -- Nothing is sent, delivered or written, but for the counter of sequence numbers.
  pub record SameAs (w u : PbftConsensus x) : Type 0 where
    pub sends : u.outgoing ≡ w.outgoing
    pub delivers : u.committed ≡ w.committed
    pub rest : record u.state { log = []; sequence = 0 } ≡ record w.state { log = []; sequence = 0 }
    pub entries : (k : ℕ) → lookup ℕ_discrete k u.state.log ≡ lookup ℕ_discrete k w.state.log

  same_refl : (w : PbftConsensus x) → SameAs w w
  same_refl w = record { sends = refl; delivers = refl; rest = refl; entries = λ k. refl }

  -- An entry that is there is written back as it was.
  put_back :
      (now k j : ℕ) (s : PbftState x)
      → lookup ℕ_discrete k s.log ≢ none
      → lookup ℕ_discrete j (insert ℕ_discrete k (get_or_create_instance x now k s) s.log)
        ≡ lookup ℕ_discrete j s.log
  unfolding get_or_create_instance
  put_back now k j s there = elim (Option-cases (lookup ℕ_discrete k s.log)) [
    | inl missing ↦ absurd (there missing)
    | inr (i, found) ↦ rw (found) (ground (arith, lookup-insert ℕ_discrete j k i s.log))
  ]

  lent_new :
      (now k : ℕ) (s : PbftState x)
      → lookup ℕ_discrete k s.log ≡ none
      → get_or_create_instance x now k s ≡ instance_new now k s.view
  unfolding get_or_create_instance
  lent_new now k s missing = rw (missing) refl

  SameAs-put_back :
      (now k : ℕ) (w : PbftConsensus x)
      → lookup ℕ_discrete k w.state.log ≢ none
      → SameAs w
          (record w { state = put_instance x k (get_or_create_instance x now k w.state) w.state })
  unfolding put_instance
  SameAs-put_back now k w there = record {
    sends = refl;
    delivers = refl;
    rest = refl;
    entries = λ j. put_back now k j w.state there;
  }

  -- What a new entry cannot refuse is refused by an entry that is there.
  was_there :
      (now k : ℕ) (s : PbftState x) (test : ConsensusInstance → Bool)
      → test (instance_new now k s.view) ≡ true
      → test (get_or_create_instance x now k s) ≡ false
      → lookup ℕ_discrete k s.log ≢ none
  was_there now k s test fresh refused missing =
      let same_entry = ap test (lent_new now k s missing) in cc

  was_there_too :
      (now k : ℕ) (s : PbftState x) (test : ConsensusInstance → Bool)
      → test (instance_new now k s.view) ≡ false
      → test (get_or_create_instance x now k s) ≡ true
      → lookup ℕ_discrete k s.log ≢ none
  was_there_too now k s test fresh stops missing =
      let same_entry = ap test (lent_new now k s missing) in cc

  accept_prepare-SameAs :
      (now : ℕ) (p : Prepare) (w : PbftConsensus x)
      → Ends (SameAs w) (λ _ _. Unit {0}) (accept_prepare x now p w)
  unfolding accept_prepare instance_new lookup
  accept_prepare-SameAs now p w =
      let h = same_refl w in
      let s = w.state in
      let k = p.sequence in
      gets-Ends _ _ _ (
        guard-Ends _ _ _ _ h λ in_view. guard-Ends _ _ _ _ h λ in_range.
          guard-Ends _ _ _ _ h λ signed. modify-Ends _ _ _ (
            guard-Ends_known _ _ _ _
              (λ refused.
                SameAs-put_back now k w
                  (was_there now k s (λ i. pre_prepare_admits i.pre_prepare p.digest) refl refused))
              λ admits.
                return_if-Ends_known _ _ _
                  (λ again. SameAs-put_back now k w (
                    was_there_too now k s (λ i. contains_key bytes_discrete p.replica_id i.prepares)
                      refl again))
                  λ new. write-Ends _ _ _ tt))

  accept_commit-SameAs :
      (now : ℕ) (c : Commit) (w : PbftConsensus x)
      → Ends (SameAs w) (λ _ _. Unit {0}) (accept_commit x now c w)
  unfolding accept_commit instance_new lookup
  accept_commit-SameAs now c w =
      let h = same_refl w in
      let s = w.state in
      let k = c.sequence in
      gets-Ends _ _ _ (
        guard-Ends _ _ _ _ h λ in_view. guard-Ends _ _ _ _ h λ in_range.
          guard-Ends _ _ _ _ h λ signed. modify-Ends _ _ _ (
            guard-Ends_known _ _ _ _
              (λ refused.
                SameAs-put_back now k w
                  (was_there now k s (λ i. digest_admits i.digest c.digest) refl refused))
              λ admits.
                return_if-Ends_known _ _ _
                  (λ again. SameAs-put_back now k w (
                    was_there_too now k s (λ i. contains_key bytes_discrete c.replica_id i.commits)
                      refl again))
                  λ new. write-Ends _ _ _ tt))

  accept_pre_prepare-SameAs :
      (now : ℕ) (pp : PrePrepare) (w : PbftConsensus x)
      → Ends (SameAs w) (λ _ _. Unit {0}) (accept_pre_prepare x now pp w)
  unfolding accept_pre_prepare
  accept_pre_prepare-SameAs now pp w =
      let h = same_refl w in
      gets-Ends _ _ _ (
        guard-Ends _ _ _ _ h λ in_view. unwrap-Ends _ _ _ h λ leader leads.
          guard-Ends _ _ _ _ h λ from_leader. guard-Ends _ _ _ _ h λ in_range.
            guard-Ends _ _ _ _ h λ signed. guard-Ends _ _ _ _ h λ agreed.
              return_if-Ends _ _ _ h λ new.
                guard-Ends _ _ _ _ h
                  λ right_digest. modify-Ends _ _ _ (modify-Ends _ _ _ (pure-Ends _ _ _ tt)))

  propose-SameAs :
      (now : ℕ) (r : Request) (w : PbftConsensus x)
      → Ends (SameAs w) (λ _ _. Unit {0}) (propose x now r w)
  unfolding propose
  propose-SameAs now r w = gets-Ends _ _ _ (
      return_if-Ends _ _ _ (same_refl w) λ new. modify-Ends _ _ _ (
        gets-Ends _ _ _ (
          guard-Ends _ _ _ _
            (record { sends = refl; delivers = refl; rest = refl; entries = λ k. refl })
            λ in_range. modify-Ends _ _ _ (pure-Ends _ _ _ tt))))

  lead-OnErr : (now : ℕ) (r : Request) (w : PbftConsensus x) → OnErr (SameAs w) (lead x now r w)
  unfolding lead
  lead-OnErr now r w =
      bind-OnErr _ _ w (propose-SameAs now r w)
        (λ (pp, p). search (no_err_rules, try_advance_to_prepared-NoErr) depth 30)

  handle_request-OnErr :
      (now : ℕ) (r : Request) (w : PbftConsensus x) → OnErr (SameAs w) (handle_request x now r w)
  unfolding handle_request
  handle_request-OnErr now r w = gets-OnErr _ _ w (
      unwrap-OnErr _ _ w λ leader leads.
        branch-OnErr _ _ _ w (lead-OnErr now r w) (NoErr-OnErr _ w (NoErr-modify _)))

  process_message-OnErr :
      (now : ℕ) (m : ConsensusMessage) (w : PbftConsensus x)
      → OnErr (SameAs w) (process_message x now m w)
  unfolding process_message handle_pre_prepare handle_prepare handle_commit
  process_message-OnErr now (request r) w = handle_request-OnErr now r w
  process_message-OnErr now (pre_prepare pp) w =
      bind-OnErr _ _ w (accept_pre_prepare-SameAs now pp w)
        (λ p. search (no_err_rules, try_advance_to_prepared-NoErr) depth 30)
  process_message-OnErr now (prepare p) w =
      seq-OnErr _ _ w (accept_prepare-SameAs now p w)
        (search (no_err_rules, try_advance_to_prepared-NoErr) depth 30)
  process_message-OnErr now (commit c) w =
      seq-OnErr _ _ w (accept_commit-SameAs now c w)
        (search (no_err_rules, try_advance_to_committed-NoErr) depth 30)
  process_message-OnErr now (reply r) w = NoErr-OnErr _ w (NoErr-pure tt)
  process_message-OnErr now (view_change vc) w = NoErr-OnErr _ w (handle_view_change-NoErr x vc)
  process_message-OnErr now (new_view nv) w = NoErr-OnErr _ w (handle_new_view-NoErr x now nv)
  process_message-OnErr now (checkpoint c) w = NoErr-OnErr _ w (handle_checkpoint-NoErr x c)

  -- Where a message, of whatever kind and to whatever engine, is refused with an error, the engine has sent
  -- and delivered nothing, has the same entry as before, or none, at every sequence number, and has the
  -- same state otherwise, but for the counter from which it numbers its own proposals.
  pub process_message-Refuses :
      (now : ℕ) (m : ConsensusMessage) (w : PbftConsensus x) (e : PbftError)
      → outcome (process_message x now m w) ≡ err e
      → SameAs w (after (process_message x now m w))
  process_message-Refuses now m w e h = (process_message-OnErr now m w).left e h
