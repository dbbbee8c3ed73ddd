-- ===== src/Pbft/Frame.antt =====
-- src/pbft.rs: what the handlers leave alone. All but `handle_checkpoint` and `handle_new_view` keep
-- the view, the watermarks and the configuration.
use p2p_pbft.Base.{ℕ, Bool, ◌≡◌, List, [], ◌∷◌, Option, none, some}
use p2p_pbft.Pbft.Config.{PbftConfig}
use p2p_pbft.Base.Flow.Stays.{Stays, stays_rules, Stays-bind}
use p2p_pbft.External.{External}
use p2p_pbft.Message.{
  consensus, view_change, NodeId, Checkpoint, Hash, Request, PrePrepare, Prepare, Commit,
  ViewChange, NewView,
}
use p2p_pbft.Pbft.State.{OutgoingMessage, broadcast, PbftState, PbftConsensus, put_instance}
use p2p_pbft.Pbft.Advance.{
  make_checkpoint, try_checkpoint, commit_instance, execute, try_advance_to_committed, make_commit,
  try_advance_to_prepared,
}
use p2p_pbft.Pbft.Normal.{
  propose, lead, handle_request, accept_pre_prepare, handle_pre_prepare, accept_prepare,
  handle_prepare, accept_commit, handle_commit,
}
use p2p_pbft.Pbft.Maintenance.{
  lead_new_view, collect_view_change, announce, handle_view_change, make_view_change,
  start_view_change, check_timeout,
}

-- The view changes among what was sent, the newest first.
abbrev pub changes_sent : List OutgoingMessage → List ViewChange
changes_sent [] = []
changes_sent (broadcast (consensus (view_change vc)) ∷ out) = vc ∷ changes_sent out
changes_sent (_ ∷ out) = changes_sent out

-- What these handlers leave alone, with the checkpoint messages; `start_view_change` and `check_timeout`
-- do not leave the last two alone.
abbrev pub Fixed : Type 0
Fixed =
    ℕ
    × ℕ
    × ℕ
    × ℕ
    × PbftConfig
    × List NodeId
    × NodeId
    × List (ℕ × List (NodeId × Checkpoint))
    × Bool
    × List ViewChange

abbrev pub fixed : (x : External) → PbftConsensus x → Fixed
fixed x w = (
  w.state.view,
  w.state.low_watermark,
  w.state.high_watermark,
  w.state.stable_checkpoint,
  w.state.config,
  w.state.replicas,
  w.state.node_id,
  w.state.checkpoints,
  w.state.view_changing,
  changes_sent w.outgoing,
)

abbrev pub Kept : (x : External) → (Fixed → Type 0) → PbftConsensus x → Type 0
Kept x Q w = Q (fixed x w)

-- The view, the watermarks and the configuration are those of `s`.
abbrev pub Frame : (x : External) → PbftState x → PbftConsensus x → Type 0
Frame x s w =
    (w.state.view ≡ s.view)
    × (w.state.low_watermark ≡ s.low_watermark)
    × (w.state.high_watermark ≡ s.high_watermark)
    × (w.state.stable_checkpoint ≡ s.stable_checkpoint)
    × (w.state.config ≡ s.config)
    × (w.state.replicas ≡ s.replicas)
    × (w.state.node_id ≡ s.node_id)

module _ (x : External) (Q : Fixed → Type 0) where
  make_commit-Kept : (k : ℕ) → Stays (Kept x Q) (make_commit x k)
  unfolding make_commit put_instance
  make_commit-Kept k = search stays_rules depth 30

  make_checkpoint-Kept : (k : ℕ) → Stays (Kept x Q) (make_checkpoint x k)
  unfolding make_checkpoint
  make_checkpoint-Kept k = search stays_rules depth 30

  try_checkpoint-Kept : (k : ℕ) → Stays (Kept x Q) (try_checkpoint x k)
  unfolding try_checkpoint
  try_checkpoint-Kept k = search (stays_rules, make_checkpoint-Kept) depth 30

  commit_instance-Kept : (k : ℕ) → Stays (Kept x Q) (commit_instance x k)
  unfolding commit_instance put_instance
  commit_instance-Kept k = search stays_rules depth 30

  execute-Kept : (k : ℕ) (o : Option (Request × Hash)) → Stays (Kept x Q) (execute x k o)
  execute-Kept k none = search stays_rules depth 30
  execute-Kept k (some _) = search (stays_rules, try_checkpoint-Kept) depth 30

  try_advance_to_committed-Kept : (k : ℕ) → Stays (Kept x Q) (try_advance_to_committed x k)
  unfolding try_advance_to_committed
  try_advance_to_committed-Kept k = Stays-bind _ _ (commit_instance-Kept k) (execute-Kept k)

  try_advance_to_prepared-Kept : (k : ℕ) → Stays (Kept x Q) (try_advance_to_prepared x k)
  unfolding try_advance_to_prepared
  try_advance_to_prepared-Kept k =
      search (stays_rules, make_commit-Kept, try_advance_to_committed-Kept) depth 30

  propose-Kept : (now : ℕ) (r : Request) → Stays (Kept x Q) (propose x now r)
  unfolding propose put_instance
  propose-Kept now r = search stays_rules depth 30

  lead-Kept : (now : ℕ) (r : Request) → Stays (Kept x Q) (lead x now r)
  unfolding lead
  lead-Kept now r = search (stays_rules, propose-Kept, try_advance_to_prepared-Kept) depth 30

  pub handle_request-Kept : (now : ℕ) (r : Request) → Stays (Kept x Q) (handle_request x now r)
  unfolding handle_request
  handle_request-Kept now r = search (stays_rules, lead-Kept) depth 30

  accept_pre_prepare-Kept :
      (now : ℕ) (pp : PrePrepare) → Stays (Kept x Q) (accept_pre_prepare x now pp)
  unfolding accept_pre_prepare put_instance
  accept_pre_prepare-Kept now pp = search stays_rules depth 40

  pub handle_pre_prepare-Kept :
      (now : ℕ) (pp : PrePrepare) → Stays (Kept x Q) (handle_pre_prepare x now pp)
  unfolding handle_pre_prepare
  handle_pre_prepare-Kept now pp =
      search (stays_rules, accept_pre_prepare-Kept, try_advance_to_prepared-Kept) depth 30

  accept_prepare-Kept : (now : ℕ) (p : Prepare) → Stays (Kept x Q) (accept_prepare x now p)
  unfolding accept_prepare put_instance
  accept_prepare-Kept now p = search stays_rules depth 30

  pub handle_prepare-Kept : (now : ℕ) (p : Prepare) → Stays (Kept x Q) (handle_prepare x now p)
  unfolding handle_prepare
  handle_prepare-Kept now p =
      search (stays_rules, accept_prepare-Kept, try_advance_to_prepared-Kept) depth 30

  accept_commit-Kept : (now : ℕ) (c : Commit) → Stays (Kept x Q) (accept_commit x now c)
  unfolding accept_commit put_instance
  accept_commit-Kept now c = search stays_rules depth 30

  pub handle_commit-Kept : (now : ℕ) (c : Commit) → Stays (Kept x Q) (handle_commit x now c)
  unfolding handle_commit
  handle_commit-Kept now c =
      search (stays_rules, accept_commit-Kept, try_advance_to_committed-Kept) depth 30

  collect_view_change-Kept : (vc : ViewChange) → Stays (Kept x Q) (collect_view_change x vc)
  unfolding collect_view_change lead_new_view
  collect_view_change-Kept vc = search stays_rules depth 30

  announce-Kept : (o : Option NewView) → Stays (Kept x Q) (announce x o)
  announce-Kept none = search stays_rules depth 30
  announce-Kept (some nv) = search stays_rules depth 30

  pub handle_view_change-Kept : (vc : ViewChange) → Stays (Kept x Q) (handle_view_change x vc)
  unfolding handle_view_change
  handle_view_change-Kept vc = Stays-bind _ _ (collect_view_change-Kept vc) announce-Kept

  -- Whether a view change was sent makes no difference to the condition.
  abbrev pub Blind : Type 0
  Blind =
      (view low high stable : ℕ) (config : PbftConfig) (replicas : List NodeId) (node_id : NodeId)
      (checkpoints : List (ℕ × List (NodeId × Checkpoint))) (b c : Bool)
      (sent more : List ViewChange)
      → Q (view, low, high, stable, config, replicas, node_id, checkpoints, b, sent)
      → Q (view, low, high, stable, config, replicas, node_id, checkpoints, c, more)

  module _ (blind : Blind) where
    make_view_change-Kept : Stays (Kept x Q) (make_view_change x)
    unfolding make_view_change
    make_view_change-Kept = search (stays_rules, blind) depth 30

    pub start_view_change-Kept : Stays (Kept x Q) (start_view_change x)
    unfolding start_view_change
    start_view_change-Kept = search (stays_rules, make_view_change-Kept, blind) depth 30

    pub check_timeout-Kept : (now : ℕ) → Stays (Kept x Q) (check_timeout x now)
    unfolding check_timeout
    check_timeout-Kept now = search (stays_rules, start_view_change-Kept) depth 30

module _ (x : External) (s : PbftState x) where
  -- The condition on them that `Frame` is.
  abbrev InFrame : Fixed → Type 0
  InFrame (view, low, high, stable, config, replicas, node_id, _, _, _) =
      (view ≡ s.view)
      × (low ≡ s.low_watermark)
      × (high ≡ s.high_watermark)
      × (stable ≡ s.stable_checkpoint)
      × (config ≡ s.config)
      × (replicas ≡ s.replicas)
      × (node_id ≡ s.node_id)

  pub handle_request-Frame : (now : ℕ) (r : Request) → Stays (Frame x s) (handle_request x now r)
  handle_request-Frame now r = handle_request-Kept x InFrame now r

  pub handle_pre_prepare-Frame :
      (now : ℕ) (pp : PrePrepare) → Stays (Frame x s) (handle_pre_prepare x now pp)
  handle_pre_prepare-Frame now pp = handle_pre_prepare-Kept x InFrame now pp

  pub handle_prepare-Frame : (now : ℕ) (p : Prepare) → Stays (Frame x s) (handle_prepare x now p)
  handle_prepare-Frame now p = handle_prepare-Kept x InFrame now p

  pub handle_commit-Frame : (now : ℕ) (c : Commit) → Stays (Frame x s) (handle_commit x now c)
  handle_commit-Frame now c = handle_commit-Kept x InFrame now c

  pub handle_view_change-Frame : (vc : ViewChange) → Stays (Frame x s) (handle_view_change x vc)
  handle_view_change-Frame vc = handle_view_change-Kept x InFrame vc

  pub start_view_change-Frame : Stays (Frame x s) (start_view_change x)
  start_view_change-Frame = start_view_change-Kept x InFrame (λ _ _ _ _ _ _ _ _ _ _ _ _ h. h)

  pub check_timeout-Frame : (now : ℕ) → Stays (Frame x s) (check_timeout x now)
  check_timeout-Frame now = check_timeout-Kept x InFrame (λ _ _ _ _ _ _ _ _ _ _ _ _ h. h) now
