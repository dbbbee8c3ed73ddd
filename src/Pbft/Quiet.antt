-- ===== src/Pbft/Quiet.antt =====
-- src/pbft.rs: what code leaves alone that neither proposes nor votes. `still` and `bare` blank out what
-- such code may change, so that a condition on what is left is kept by it.
use p2p_pbft.Base.{ℕ, List, [], ◌∷◌, Option, none, some, false}
use p2p_pbft.Base.Flow.Stays.{Stays, Stays-bind, stays_rules}
use p2p_pbft.External.{External}
use p2p_pbft.Message.{
  Hash, Request, PrePrepare, Prepare, Commit, ViewChange, NewView, Checkpoint, consensus,
  pre_prepare, prepare,
}
use p2p_pbft.Pbft.State.{OutgoingMessage, broadcast, PbftConsensus, put_instance}
use p2p_pbft.Pbft.Advance.{
  make_checkpoint, try_checkpoint, commit_instance, execute, try_advance_to_committed, make_commit,
  try_advance_to_prepared,
}
use p2p_pbft.Pbft.Normal.{
  accept_pre_prepare, accept_prepare, handle_prepare, accept_commit, handle_commit,
}
use p2p_pbft.Pbft.Maintenance.{
  stabilize, handle_checkpoint, lead_new_view, collect_view_change, announce, handle_view_change,
  handle_new_view, make_view_change, start_view_change, check_timeout,
}
use p2p_pbft.Pbft.Histories.{Maintained}

-- The pre-prepares and prepares among what was sent.
abbrev pub voices : List OutgoingMessage → List OutgoingMessage
voices [] = []
voices (broadcast (consensus (pre_prepare pp)) ∷ out) =
    broadcast (consensus (pre_prepare pp)) ∷ voices out
voices (broadcast (consensus (prepare p)) ∷ out) = broadcast (consensus (prepare p)) ∷ voices out
voices (_ ∷ out) = voices out

module _ (x : External) where
  abbrev pub still : PbftConsensus x → PbftConsensus x
  still w = record w {
    state = record w.state {
      view = 0;
      checkpoints = [];
      view_changes = [];
      view_changing = false;
      last_primary_activity = 0;
    };
    outgoing = voices w.outgoing;
    committed = [];
  }

  -- Without the log and the watermarks.
  abbrev pub bare : PbftConsensus x → PbftConsensus x
  bare w = record w {
    state = record w.state {
      low_watermark = 0;
      high_watermark = 0;
      log = [];
      executed = [];
      stable_checkpoint = 0;
    };
  }

  module _ (F : PbftConsensus x → Type 0) where
    abbrev Still : PbftConsensus x → Type 0
    Still w = F (still w)

    make_checkpoint-Still : (k : ℕ) → Stays Still (make_checkpoint x k)
    unfolding make_checkpoint
    make_checkpoint-Still k = search stays_rules depth 30

    try_checkpoint-Still : (k : ℕ) → Stays Still (try_checkpoint x k)
    unfolding try_checkpoint
    try_checkpoint-Still k = search (stays_rules, make_checkpoint-Still) depth 30

    -- What is executed after an entry has committed.
    pub execute-Still : (k : ℕ) (o : Option (Request × Hash)) → Stays Still (execute x k o)
    execute-Still k none = search stays_rules depth 30
    execute-Still k (some _) = search (stays_rules, try_checkpoint-Still) depth 30

    collect_view_change-Still : (vc : ViewChange) → Stays Still (collect_view_change x vc)
    unfolding collect_view_change lead_new_view
    collect_view_change-Still vc = search stays_rules depth 30

    announce-Still : (o : Option NewView) → Stays Still (announce x o)
    announce-Still none = search stays_rules depth 30
    announce-Still (some nv) = search stays_rules depth 30

    handle_view_change-Still : (vc : ViewChange) → Stays Still (handle_view_change x vc)
    unfolding handle_view_change
    handle_view_change-Still vc = Stays-bind _ _ (collect_view_change-Still vc) announce-Still

    handle_new_view-Still : (now : ℕ) (nv : NewView) → Stays Still (handle_new_view x now nv)
    unfolding handle_new_view
    handle_new_view-Still now nv = search stays_rules depth 30

    start_view_change-Still : Stays Still (start_view_change x)
    unfolding start_view_change make_view_change
    start_view_change-Still = search stays_rules depth 30

    check_timeout-Still : (now : ℕ) → Stays Still (check_timeout x now)
    unfolding check_timeout
    check_timeout-Still now = search (stays_rules, start_view_change-Still) depth 30

    -- The handlers that only change views keep what is left by `still`.
    pub maintained : Maintained x Still
    maintained = record {
      on_view_change = handle_view_change-Still;
      on_new_view = handle_new_view-Still;
      on_suspicion = start_view_change-Still;
      on_timer = check_timeout-Still;
    }

    abbrev Quiet : PbftConsensus x → Type 0
    Quiet w = F (bare (still w))

    make_commit-Quiet : (k : ℕ) → Stays Quiet (make_commit x k)
    unfolding make_commit put_instance
    make_commit-Quiet k = search stays_rules depth 30

    commit_instance-Quiet : (k : ℕ) → Stays Quiet (commit_instance x k)
    unfolding commit_instance put_instance
    commit_instance-Quiet k = search stays_rules depth 30

    pub accept_pre_prepare-Quiet :
        (now : ℕ) (pp : PrePrepare) → Stays Quiet (accept_pre_prepare x now pp)
    unfolding accept_pre_prepare put_instance
    accept_pre_prepare-Quiet now pp = search stays_rules depth 40

    accept_prepare-Quiet : (now : ℕ) (p : Prepare) → Stays Quiet (accept_prepare x now p)
    unfolding accept_prepare put_instance
    accept_prepare-Quiet now p = search stays_rules depth 30

    accept_commit-Quiet : (now : ℕ) (c : Commit) → Stays Quiet (accept_commit x now c)
    unfolding accept_commit put_instance
    accept_commit-Quiet now c = search stays_rules depth 30

    pub handle_checkpoint-Quiet : (c : Checkpoint) → Stays Quiet (handle_checkpoint x c)
    unfolding handle_checkpoint stabilize
    handle_checkpoint-Quiet c = search stays_rules depth 30

  module _ (F : PbftConsensus x → Type 0) where
    try_advance_to_committed-Quiet : (k : ℕ) → Stays (Quiet F) (try_advance_to_committed x k)
    unfolding try_advance_to_committed
    try_advance_to_committed-Quiet k =
        Stays-bind _ _ (commit_instance-Quiet F k) (execute-Still (λ w. F (bare w)) k)

    pub try_advance_to_prepared-Quiet : (k : ℕ) → Stays (Quiet F) (try_advance_to_prepared x k)
    unfolding try_advance_to_prepared
    try_advance_to_prepared-Quiet k =
        search (stays_rules, make_commit-Quiet F, try_advance_to_committed-Quiet) depth 30

    pub handle_prepare-Quiet : (now : ℕ) (p : Prepare) → Stays (Quiet F) (handle_prepare x now p)
    unfolding handle_prepare
    handle_prepare-Quiet now p =
        search (stays_rules, accept_prepare-Quiet F, try_advance_to_prepared-Quiet) depth 30

    pub handle_commit-Quiet : (now : ℕ) (c : Commit) → Stays (Quiet F) (handle_commit x now c)
    unfolding handle_commit
    handle_commit-Quiet now c =
        search (stays_rules, accept_commit-Quiet F, try_advance_to_committed-Quiet) depth 30

    pub maintained_quietly : Maintained x (Quiet F)
    maintained_quietly = maintained (λ w. F (bare w))
