-- ===== src/Pbft/Invariant/Maintenance.antt =====
-- The invariant across src/pbft.rs: `handle_checkpoint`, `handle_view_change`, `handle_new_view`,
-- `start_view_change`, `check_timeout`.
use p2p_pbft.Base.{ℕ, none}
use p2p_pbft.Base.Flow.Rules.{
  Holds, Keeps, gets-Holds, bind-Holds, return_if-Holds, unwrap-Holds, pure-Holds, modify-Holds,
  modify-Keeps, branch-Holds,
}
use p2p_pbft.External.{External}
use p2p_pbft.Message.{ViewChange, NewView, Checkpoint}
use p2p_pbft.Base.{Option, some}
use p2p_pbft.Pbft.State.{PbftConsensus}
use p2p_pbft.Pbft.Maintenance.{
  stabilize, lead_new_view, handle_checkpoint, collect_view_change, announce, handle_view_change,
  handle_new_view, make_view_change, start_view_change, check_timeout,
}
use p2p_pbft.Pbft.Invariant.Defs.{Inv, LogOk-retain}
use p2p_pbft.Pbft.Invariant.Normal.{replica_exists, primary_exists}

module _ (x : External) where
  pub handle_checkpoint-Inv :
      (c : Checkpoint) (w : PbftConsensus x) → Inv x w → Keeps (Inv x) (handle_checkpoint x c w)
  unfolding handle_checkpoint stabilize
  handle_checkpoint-Inv c w v = modify-Holds _ _ _ (
      gets-Holds _ _ _ (
        branch-Holds _ _ _ _
          (λ stable. modify-Keeps _ _ _ (record {
            has_replicas = v.has_replicas;
            has_interval = v.has_interval;
            log_ok = LogOk-retain x _ _ v.log_ok;
            once = v.once;
            in_step = v.in_step;
          }))
          (λ _. pure-Holds _ _ _ v)))

  collect_view_change-Inv :
      (vc : ViewChange) (w : PbftConsensus x)
      → Inv x w
      → Holds (Inv x) (λ _. Inv x) (collect_view_change x vc w)
  unfolding collect_view_change lead_new_view
  collect_view_change-Inv vc w v = gets-Holds _ _ _ (
      return_if-Holds _ _ _ v λ is_later. modify-Holds _ _ _ (
        gets-Holds _ _ _ (
          branch-Holds _ _ _ _
            (λ enough.
              unwrap-Holds _ _ _ (replica_exists x w v vc.new_view) λ leader e. pure-Holds _ _ _ v)
            (λ _. pure-Holds _ _ _ v))))

  announce-Inv :
      (o : Option NewView) (w : PbftConsensus x) → Inv x w → Keeps (Inv x) (announce x o w)
  announce-Inv none w v = pure-Holds _ _ _ v
  announce-Inv (some nv) w v = modify-Keeps _ _ _ v

  pub handle_view_change-Inv :
      (vc : ViewChange) (w : PbftConsensus x) → Inv x w → Keeps (Inv x) (handle_view_change x vc w)
  unfolding handle_view_change
  handle_view_change-Inv vc w v =
      bind-Holds _ _ _ (collect_view_change-Inv vc w v) λ o u h. announce-Inv o u h

  pub handle_new_view-Inv :
      (now : ℕ) (nv : NewView) (w : PbftConsensus x)
      → Inv x w
      → Keeps (Inv x) (handle_new_view x now nv w)
  unfolding handle_new_view
  handle_new_view-Inv now nv w v =
      gets-Holds _ _ _ (return_if-Holds _ _ _ v λ is_later. modify-Keeps _ _ _ v)

  make_view_change-Inv :
      (w : PbftConsensus x) → Inv x w → Holds (Inv x) (λ _. Inv x) (make_view_change x w)
  unfolding make_view_change
  make_view_change-Inv w v =
      gets-Holds _ _ _ (return_if-Holds _ _ _ v λ idle. modify-Holds _ _ _ (pure-Holds _ _ _ v))

  pub start_view_change-Inv :
      (w : PbftConsensus x) → Inv x w → Keeps (Inv x) (start_view_change x w)
  unfolding start_view_change
  start_view_change-Inv w v =
      bind-Holds _ _ _ (make_view_change-Inv w v) λ vc u h. modify-Keeps _ _ _ h

  pub check_timeout-Inv :
      (now : ℕ) (w : PbftConsensus x) → Inv x w → Keeps (Inv x) (check_timeout x now w)
  unfolding check_timeout
  check_timeout-Inv now w v = gets-Holds _ _ _ (
      return_if-Holds _ _ _ v λ idle.
        unwrap-Holds _ _ _ (primary_exists x w v) λ leader e.
          branch-Holds _ _ _ _ (λ _. start_view_change-Inv w v) (λ _. pure-Holds _ _ _ v))
