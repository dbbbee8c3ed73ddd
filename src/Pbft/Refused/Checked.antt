-- ===== src/Pbft/Refused/Checked.antt =====
-- src/pbft.rs: what follows the checks of a handler, and the handlers without checks, return no error.
use p2p_pbft.Base.{ℕ, Option, none, some}
use p2p_pbft.Base.Flow.Errors.{NoErr, NoErr-bind, no_err_rules}
use p2p_pbft.External.{External}
use p2p_pbft.Message.{Hash, Request, ViewChange, NewView, Checkpoint}
use p2p_pbft.Pbft.Advance.{
  make_checkpoint, try_checkpoint, commit_instance, execute, try_advance_to_committed, make_commit,
  try_advance_to_prepared,
}
use p2p_pbft.Pbft.Maintenance.{
  handle_checkpoint, lead_new_view, collect_view_change, announce, handle_view_change,
  handle_new_view,
}

module _ (x : External) where
  make_checkpoint-NoErr : (k : ℕ) → NoErr (make_checkpoint x k)
  unfolding make_checkpoint
  make_checkpoint-NoErr k = search no_err_rules depth 30

  try_checkpoint-NoErr : (k : ℕ) → NoErr (try_checkpoint x k)
  unfolding try_checkpoint
  try_checkpoint-NoErr k = search (no_err_rules, make_checkpoint-NoErr) depth 30

  execute-NoErr : (k : ℕ) (o : Option (Request × Hash)) → NoErr (execute x k o)
  execute-NoErr k none = search no_err_rules depth 30
  execute-NoErr k (some _) = search (no_err_rules, try_checkpoint-NoErr) depth 30

  commit_instance-NoErr : (k : ℕ) → NoErr (commit_instance x k)
  unfolding commit_instance
  commit_instance-NoErr k = search no_err_rules depth 30

  pub try_advance_to_committed-NoErr : (k : ℕ) → NoErr (try_advance_to_committed x k)
  unfolding try_advance_to_committed
  try_advance_to_committed-NoErr k = NoErr-bind _ _ (commit_instance-NoErr k) (execute-NoErr k)

  make_commit-NoErr : (k : ℕ) → NoErr (make_commit x k)
  unfolding make_commit
  make_commit-NoErr k = search no_err_rules depth 30

  pub try_advance_to_prepared-NoErr : (k : ℕ) → NoErr (try_advance_to_prepared x k)
  unfolding try_advance_to_prepared
  try_advance_to_prepared-NoErr k =
      search (no_err_rules, make_commit-NoErr, try_advance_to_committed-NoErr) depth 30

  announce-NoErr : (o : Option NewView) → NoErr (announce x o)
  announce-NoErr none = search no_err_rules depth 30
  announce-NoErr (some nv) = search no_err_rules depth 30

  collect_view_change-NoErr : (vc : ViewChange) → NoErr (collect_view_change x vc)
  unfolding collect_view_change lead_new_view
  collect_view_change-NoErr vc = search no_err_rules depth 30

  pub handle_view_change-NoErr : (vc : ViewChange) → NoErr (handle_view_change x vc)
  unfolding handle_view_change
  handle_view_change-NoErr vc = NoErr-bind _ _ (collect_view_change-NoErr vc) announce-NoErr

  pub handle_new_view-NoErr : (now : ℕ) (nv : NewView) → NoErr (handle_new_view x now nv)
  unfolding handle_new_view
  handle_new_view-NoErr now nv = search no_err_rules depth 30

  pub handle_checkpoint-NoErr : (c : Checkpoint) → NoErr (handle_checkpoint x c)
  unfolding handle_checkpoint
  handle_checkpoint-NoErr c = search no_err_rules depth 30
