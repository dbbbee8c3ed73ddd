-- ===== src/Pbft/Timeout.antt =====
-- src/pbft.rs, `start_view_change` and `check_timeout`: a replica that waits for a new view.
use p2p_pbft.Base.{
  ℕ, ◌+◌, ◌≤◌, ◌≡◌, refl, sym, subst, inl, inr, true, List, [], ◌∷◌, leb, if◌then◌else◌, wrap64,
  Bool-cases, arith,
}
use p2p_pbft.Base.Flow.{flow, after}
use p2p_pbft.Base.Flow.Stays.{Stays, Stays-pure, stays_rules}
use p2p_pbft.External.{External}
use p2p_pbft.Message.{
  ViewChange, NewView, Checkpoint, request, pre_prepare, prepare, commit, reply, view_change,
  new_view, checkpoint,
}
use p2p_pbft.Pbft.State.{PbftState, PbftConsensus, sign}
use p2p_pbft.Pbft.Signing.{view_change_data}
use p2p_pbft.Pbft.Maintenance.{
  make_view_change, start_view_change, check_timeout, handle_checkpoint, handle_new_view, stabilize,
}
use p2p_pbft.Pbft.Process.{
  Input, received, submitted, timer, suspicion, process_message, process_input, process_all,
}
use p2p_pbft.Pbft.Frame.{
  Fixed, Kept, changes_sent, handle_request-Kept, handle_pre_prepare-Kept, handle_prepare-Kept,
  handle_commit-Kept, handle_view_change-Kept, start_view_change-Frame,
}
use p2p_pbft.Pbft.Histories.{AllAdmitted}

-- A `NewView`, if the input is one, is not for a later view than `v`.
abbrev pub NotLater : ℕ → Input → Type 0
NotLater v (received (new_view nv)) = nv.new_view ≤ v
NotLater v _ = Unit {0}

module _ (x : External) where
  waits_start :
      (w : PbftConsensus x) → w.state.view_changing ≡ true → after (start_view_change x w) ≡ w
  unfolding flow start_view_change make_view_change
  waits_start w h = rw (h) refl

  waits_timeout :
      (now : ℕ) (w : PbftConsensus x)
      → w.state.view_changing ≡ true
      → after (check_timeout x now w) ≡ w
  unfolding flow check_timeout
  waits_timeout now w h = rw (h) refl

  starts_waiting :
      (w : PbftConsensus x) → (after (start_view_change x w)).state.view_changing ≡ true
  unfolding flow start_view_change make_view_change
  starts_waiting w = elim (Bool-cases w.state.view_changing) [
    | inl waits ↦ rw (waits) refl
    | inr free ↦ rw (free) refl
  ]

  -- The view change that a replica asks for.
  abbrev asked : PbftState x → ViewChange
  asked s = record {
    new_view = wrap64 (s.view + 1);
    replica_id = s.node_id;
    last_sequence = s.sequence;
    signature = sign x s (view_change_data (wrap64 (s.view + 1)));
  }

  sends_once :
      (w : PbftConsensus x)
      → changes_sent (after (start_view_change x w)).outgoing ≡ (
          if w.state.view_changing
          then changes_sent w.outgoing
          else asked w.state ∷ changes_sent w.outgoing)
  unfolding flow start_view_change make_view_change
  sends_once w = elim (Bool-cases w.state.view_changing) [
    | inl waits ↦ rw (waits) refl
    | inr free ↦ rw (free) refl
  ]

  keeps_view : (w : PbftConsensus x) → (after (start_view_change x w)).state.view ≡ w.state.view
  keeps_view w =
      ((start_view_change-Frame x w.state).at w (refl, refl, refl, refl, refl, refl, refl)).0

  module _ (v : ℕ) (sent : List ViewChange) where
    -- In view `v`, waiting for a new view, with these view changes sent.
    Waiting : Fixed → Type 0
    Waiting (view, _, _, _, _, _, _, _, changing, changes) =
        (view ≡ v) × (changing ≡ true) × (changes ≡ sent)

    checkpoint_waits : (c : Checkpoint) → Stays (Kept x Waiting) (handle_checkpoint x c)
    unfolding handle_checkpoint stabilize Waiting
    checkpoint_waits c = search stays_rules depth 30

    new_view_waits :
        (now : ℕ) (nv : NewView)
        → nv.new_view ≤ v
        → Stays (Kept x Waiting) (handle_new_view x now nv)
    unfolding flow handle_new_view Waiting
    new_view_waits now nv h = record {
      at = λ w (e, waits, rest). rw (ignored w e) (e, waits, rest);
    }
      where
        ignored : (w : PbftConsensus x) → w.state.view ≡ v → leb nv.new_view w.state.view ≡ true
        ignored w e = ground (arith, e)

    input_waits :
        (now : ℕ) (i : Input) → NotLater v i → Stays (Kept x Waiting) (process_input x now i)
    unfolding process_input process_message Waiting
    input_waits now (received (request r)) a = handle_request-Kept x Waiting now r
    input_waits now (received (pre_prepare pp)) a = handle_pre_prepare-Kept x Waiting now pp
    input_waits now (received (prepare p)) a = handle_prepare-Kept x Waiting now p
    input_waits now (received (commit c)) a = handle_commit-Kept x Waiting now c
    input_waits now (received (reply r)) a = Stays-pure _ tt
    input_waits now (received (view_change vc)) a = handle_view_change-Kept x Waiting vc
    input_waits now (received (new_view nv)) a = new_view_waits now nv a
    input_waits now (received (checkpoint c)) a = checkpoint_waits c
    input_waits now (submitted r) a = handle_request-Kept x Waiting now r
    input_waits now timer a = record {
      at = λ w (e, waits, rest).
          subst (Kept x Waiting) (sym (waits_timeout now w waits)) (e, waits, rest);
    }
    input_waits now suspicion a = record {
      at =
          λ w (e, waits, rest). subst (Kept x Waiting) (sym (waits_start w waits)) (e, waits, rest);
    }

    all_wait :
        (inputs : List (ℕ × Input)) (w : PbftConsensus x)
        → AllAdmitted (NotLater v) inputs
        → Kept x Waiting w
        → Kept x Waiting (process_all x inputs w)
    unfolding process_all
    all_wait [] w a p = p
    all_wait ((now, i) ∷ inputs) w (a, rest) p =
        all_wait inputs (after (process_input x now i w)) rest ((input_waits now i a).at w p)

  -- A replica that starts a view change sends one view change, signed, in its own name and for the next view
  -- modulo 2^64, unless it waits already. Over any history from there on in which no `NewView` for a view later
  -- than its own comes, it stays in its view, waits, and has sent no other view change; and at the end no
  -- suspicion and no look at the clock changes it in any way.
  pub start_view_change_once :
      (w : PbftConsensus x) (inputs : List (ℕ × Input)) (now : ℕ)
      → AllAdmitted (NotLater w.state.view) inputs
      → let u = process_all x inputs (after (start_view_change x w)) in
        (changes_sent u.outgoing ≡ (
          if w.state.view_changing
          then changes_sent w.outgoing
          else record {
            new_view = wrap64 (w.state.view + 1);
            replica_id = w.state.node_id;
            last_sequence = w.state.sequence;
            signature = sign x w.state (view_change_data (wrap64 (w.state.view + 1)));
          }
            ∷ changes_sent w.outgoing))
        × (u.state.view ≡ w.state.view)
        × (u.state.view_changing ≡ true)
        × (after (start_view_change x u) ≡ u)
        × (after (check_timeout x now u) ≡ u)
  unfolding Waiting
  start_view_change_once w inputs now a =
      let (view, waits, sent) =
        all_wait w.state.view _ inputs (after (start_view_change x w)) a
          (keeps_view w, starts_waiting w, sends_once w) in
      let u = process_all x inputs (after (start_view_change x w)) in
      (sent, view, waits, waits_start u waits, waits_timeout now u waits)
