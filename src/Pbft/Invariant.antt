-- ===== src/Pbft/Invariant.antt =====
-- What holds of an engine whatever it is fed: the handlers of src/pbft.rs never panic, the entries of
-- the log are consistent, and no request is delivered twice.
pub mod Votes
mod Defs
mod Advance
mod Normal
mod Maintenance
pub use Votes.{Ballot}
pub use Defs.{Proposal, InstanceOk, LogOk, InvOf, InvWith, Inv}
pub use Advance.{try_advance_to_prepared-Inv, try_advance_to_committed-Inv}
pub use Normal.{handle_request-Inv, handle_pre_prepare-Inv, handle_prepare-Inv, handle_commit-Inv}
pub use Maintenance.{
  handle_checkpoint-Inv, handle_view_change-Inv, handle_new_view-Inv, start_view_change-Inv,
  check_timeout-Inv,
}
