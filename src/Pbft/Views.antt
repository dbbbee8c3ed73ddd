-- ===== src/Pbft/Views.antt =====
-- src/pbft.rs: what each input does to the view and to the watermarks, over whole histories too, and
-- what becomes of a replica that announces a new view.
use p2p_pbft.Base.{
  ℕ, ◌+◌, ◌*◌, ◌≤◌, ◌<◌, ◌≡◌, refl, ◌⊎◌, inl, inr, List, [], ◌∷◌, Option, none, some, ltb, leb,
  ◌&&◌, if◌then◌else◌, wrap64, arith, length, ◌∙◌, sym, subst, is_not_longer, Bool-cases,
  Option-cases, same,
}
use p2p_pbft.Base.Flow.{err, Step, next, stop, flow, after, outcome}
use p2p_pbft.External.{External}
use p2p_pbft.Message.{
  ViewNumber, ViewChange, NewView, Checkpoint, Prepare, consensus, request, pre_prepare, prepare,
  commit, reply, view_change, new_view, checkpoint,
}
use p2p_pbft.Pbft.Config.{PbftError, invalid_view, quorum}
use p2p_pbft.Pbft.State.{PbftConsensus, broadcast, replica_for}
use p2p_pbft.Pbft.Normal.{handle_prepare, accept_prepare}
use p2p_pbft.Pbft.Maintenance.{
  entry, record_message, handle_checkpoint, stabilize, handle_view_change, handle_new_view,
  collect_view_change, lead_new_view, make_new_view, announce,
}
use p2p_pbft.Pbft.Process.{
  Input, received, submitted, timer, suspicion, process_message, process_input, process_all,
}
use p2p_pbft.Pbft.Frame.{
  Frame, handle_request-Frame, handle_pre_prepare-Frame, handle_prepare-Frame, handle_commit-Frame,
  handle_view_change-Frame, start_view_change-Frame, check_timeout-Frame,
}

module _ (x : External) where
  -- The watermarks and the configuration are the same, and the view is that of a later `NewView`.
  abbrev pub NewViewChanges : NewView → PbftConsensus x → PbftConsensus x → Type 0
  NewViewChanges nv w u =
      Frame x
        (record w.state {
          view = if ltb w.state.view nv.new_view then nv.new_view else w.state.view;
        })
        u

  -- Nothing is changed, or the checkpoint, which is later than the stable one, becomes stable: it is the
  -- low watermark, and the high watermark lies two intervals above it, modulo 2^64.
  abbrev pub CheckpointChanges : Checkpoint → PbftConsensus x → PbftConsensus x → Type 0
  CheckpointChanges c w u =
      Frame x w.state u
      ⊎ ((w.state.stable_checkpoint < c.sequence)
          × Frame x
              (record w.state {
                stable_checkpoint = c.sequence;
                low_watermark = c.sequence;
                high_watermark =
                    wrap64 (c.sequence + wrap64 (w.state.config.checkpoint_interval * 2));
              })
              u)

  abbrev pub Changes : Input → PbftConsensus x → PbftConsensus x → Type 0
  Changes (received (new_view nv)) w u = NewViewChanges nv w u
  Changes (received (checkpoint c)) w u = CheckpointChanges c w u
  Changes _ w u = Frame x w.state u

  Frame-refl : (w : PbftConsensus x) → Frame x w.state w
  Frame-refl w = (refl, refl, refl, refl, refl, refl, refl)

  new_view_changes :
      (now : ℕ) (nv : NewView) (w : PbftConsensus x)
      → NewViewChanges nv w (after (handle_new_view x now nv w))
  unfolding flow handle_new_view
  new_view_changes now nv w = ground arith

  -- With the message added to those of its sequence number.
  abbrev put_checkpoint : Checkpoint → PbftConsensus x → PbftConsensus x
  put_checkpoint c w = record w {
    state = record w.state {
      checkpoints = record_message c.sequence c.replica_id c w.state.checkpoints;
    };
  }

  checkpoint_changes :
      (c : Checkpoint) (w : PbftConsensus x)
      → CheckpointChanges c w (after (handle_checkpoint x c w))
  unfolding flow handle_checkpoint stabilize
  checkpoint_changes c w =
      let u = put_checkpoint c w in
      let stable =
        leb (quorum u.state.config) (length (entry c.sequence u.state.checkpoints))
        && ltb u.state.stable_checkpoint c.sequence in
      elim (Bool-cases stable) [
        | inl is_stable ↦
            rw (is_stable) (inr (ground arith, (refl, refl, refl, refl, refl, refl, refl)))
        | inr waits ↦ rw (waits) (inl (Frame-refl w))
      ]

  -- From any engine, handling an input, whether it is accepted or refused, changes the view only if it is
  -- a `NewView` for a later view, which becomes the view, and changes the watermarks only if it is a
  -- checkpoint later than the stable one, which becomes stable; the configuration never changes.
  pub process_input-Changes :
      (now : ℕ) (i : Input) (w : PbftConsensus x) → Changes i w (after (process_input x now i w))
  unfolding process_input process_message
  process_input-Changes now (received (request r)) w =
      (handle_request-Frame x w.state now r).at w (Frame-refl w)
  process_input-Changes now (received (pre_prepare pp)) w =
      (handle_pre_prepare-Frame x w.state now pp).at w (Frame-refl w)
  process_input-Changes now (received (prepare p)) w =
      (handle_prepare-Frame x w.state now p).at w (Frame-refl w)
  process_input-Changes now (received (commit c)) w =
      (handle_commit-Frame x w.state now c).at w (Frame-refl w)
  process_input-Changes now (received (reply r)) w = unfold flow in Frame-refl w
  process_input-Changes now (received (view_change vc)) w =
      (handle_view_change-Frame x w.state vc).at w (Frame-refl w)
  process_input-Changes now (received (new_view nv)) w = new_view_changes now nv w
  process_input-Changes now (received (checkpoint c)) w = checkpoint_changes c w
  process_input-Changes now (submitted r) w =
      (handle_request-Frame x w.state now r).at w (Frame-refl w)
  process_input-Changes now timer w = (check_timeout-Frame x w.state now).at w (Frame-refl w)
  process_input-Changes now suspicion w = (start_view_change-Frame x w.state).at w (Frame-refl w)

  -- Neither the view nor the stable checkpoint falls.
  abbrev pub Grows : PbftConsensus x → PbftConsensus x → Type 0
  Grows w u =
      (w.state.view ≤ u.state.view)
      × (w.state.stable_checkpoint ≤ u.state.stable_checkpoint)
      × (u.state.config ≡ w.state.config)
      × (u.state.replicas ≡ w.state.replicas)
      × (u.state.node_id ≡ w.state.node_id)

  Changes-Grows : (i : Input) (w u : PbftConsensus x) → Changes i w u → Grows w u
  Changes-Grows (received (new_view nv)) w u c = ground arith
  Changes-Grows (received (checkpoint cp)) w u c = ground arith
  Changes-Grows (received (request r)) w u c = ground arith
  Changes-Grows _ w u c = ground arith

  -- Over any history from any engine, the view and the stable checkpoint never fall, and the
  -- configuration, the replicas and the node's own identity stay the same.
  pub process_all-Grows :
      (inputs : List (ℕ × Input)) (w : PbftConsensus x) → Grows w (process_all x inputs w)
  unfolding process_all
  process_all-Grows [] w = (omega arith, omega arith, refl, refl, refl)
  process_all-Grows ((now, i) ∷ is) w =
      let u = after (process_input x now i w) in
      let (v₁, s₁, c₁, r₁, n₁) = Changes-Grows i w u (process_input-Changes now i w) in
      let (v₂, s₂, c₂, r₂, n₂) = process_all-Grows is u in
      (omega arith, omega arith, c₂ ∙ c₁, r₂ ∙ r₁, n₂ ∙ n₁)

  -- A prepare for another view than the replica's is refused.
  prepare_of_other_view :
      (now : ℕ) (p : Prepare) (w : PbftConsensus x)
      → w.state.view < p.view
      → outcome (handle_prepare x now p w) ≡ err invalid_view
  unfolding flow handle_prepare accept_prepare
  prepare_of_other_view now p w h = ground arith

  -- Nothing has been sent yet, and what is to be announced is for a later view.
  abbrev Collected : PbftConsensus x → Step (PbftConsensus x) PbftError (Option NewView) → Type 0
  Collected w (next (some nv) u) = (w.state.view < nv.new_view) × (u.outgoing ≡ w.outgoing)
  Collected w (next none u) = u.outgoing ≡ w.outgoing
  Collected w (stop r u) = u.outgoing ≡ w.outgoing

  lead_new_view-Collected :
      (v : ViewNumber) (w u : PbftConsensus x)
      → w.state.view < v
      → u.outgoing ≡ w.outgoing
      → Collected w (lead_new_view x v u.state u)
  unfolding flow lead_new_view make_new_view
  lead_new_view-Collected v w u h same_out =
      elim (Option-cases (replica_for x u.state.replicas v)) [
        | inl missing ↦ rw (missing) same_out
        | inr (leader, found) ↦ elim (Bool-cases (same leader u.state.node_id)) [
          | inl is_leader ↦ rw (found, is_leader) (h, same_out)
          | inr other ↦ rw (found, other) same_out
        ]
      ]

  abbrev put_view_change : ViewChange → PbftConsensus x → PbftConsensus x
  put_view_change vc w = record w {
    state = record w.state {
      view_changes = record_message vc.new_view vc.replica_id vc w.state.view_changes;
    };
  }

  collect_view_change-Collected :
      (vc : ViewChange) (w : PbftConsensus x) → Collected w (collect_view_change x vc w)
  unfolding flow collect_view_change
  collect_view_change-Collected vc w =
      let u = put_view_change vc w in
      let enough = leb (quorum u.state.config) (length (entry vc.new_view u.state.view_changes)) in
      elim (Bool-cases (leb vc.new_view w.state.view)) [
        | inl old ↦ rw (old) refl
        | inr later ↦ elim (Bool-cases enough) [
          | inl has_quorum ↦
              rw (later, has_quorum) (lead_new_view-Collected vc.new_view w u (ground arith) refl)
          | inr waits ↦ rw (later, waits) refl
        ]
      ]

  announced_is_later :
      (nv : NewView) (w : PbftConsensus x) (t : Step (PbftConsensus x) PbftError (Option NewView))
      → Collected w t
      → (after (
          let r : Step (PbftConsensus x) PbftError (Unit {0}) = elim t [
            | next o u ↦ announce x o u
            | stop r u ↦ stop r u
          ] in
          r)).outgoing
        ≡ broadcast (consensus (new_view nv)) ∷ w.outgoing
      → w.state.view < nv.new_view
  unfolding flow
  announced_is_later nv w (next (some nv') u) (later, _) h =
      let same_message : nv' ≡ nv = cc in subst (λ n. w.state.view < n.new_view) same_message later
  announced_is_later nv w (next none u) c h = absurd (is_not_longer _ _ (sym c ∙ h))
  announced_is_later nv w (stop r u) c h = absurd (is_not_longer _ _ (sym c ∙ h))

  -- A replica that answers a view change by announcing a new view has the same view after it as before,
  -- which is earlier than the one announced, and then refuses every prepare for the view that it
  -- announced.
  pub announcer_stays_behind :
      (vc : ViewChange) (nv : NewView) (w : PbftConsensus x) (now : ℕ) (p : Prepare)
      → (after (handle_view_change x vc w)).outgoing
        ≡ broadcast (consensus (new_view nv)) ∷ w.outgoing
      → p.view ≡ nv.new_view
      → let u = after (handle_view_change x vc w) in
        (u.state.view ≡ w.state.view)
        × (u.state.view < nv.new_view)
        × (outcome (handle_prepare x now p u) ≡ err invalid_view)
  unfolding flow handle_view_change
  announcer_stays_behind vc nv w now p h same_view =
      let u = after (handle_view_change x vc w) in
      let later = announced_is_later nv w _ (collect_view_change-Collected vc w) h in
      let (same, _, _, _, _, _, _) = (handle_view_change-Frame x w.state vc).at w (Frame-refl w) in
      (same, omega arith, prepare_of_other_view now p u (omega arith))
