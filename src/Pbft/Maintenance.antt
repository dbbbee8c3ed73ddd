-- ===== src/Pbft/Maintenance.antt =====
-- src/pbft.rs: checkpoints and view changes, `handle_checkpoint`, `handle_view_change`,
-- `handle_new_view`, `start_view_change` and `check_timeout`.
use p2p_pbft.Base.{
  ℕ, ◌+◌, ◌-◌, ◌*◌, List, [], true, false, not, ◌&&◌, Option, none, some, ltb, leb, if◌then◌else◌,
  same, wrap64, length, ℕ_discrete, bytes_discrete,
}
use p2p_pbft.Base.Map.{lookup, insert, retain, values}
use p2p_pbft.Base.Flow.{branch, ◌>>=◌, ◌>>◌, pure, return_if, unwrap}
use p2p_pbft.External.{External}
use p2p_pbft.Message.{
  NodeId, ViewNumber, SequenceNumber, ViewChange, NewView, Checkpoint, ConsensusMessage,
}
use p2p_pbft.Pbft.Config.{quorum}
use p2p_pbft.Pbft.State.{
  PbftState, Engine, read, write, broadcast_consensus, replica_for, primary, sign,
}
use p2p_pbft.Pbft.Signing.{new_view_data, view_change_data}

-- The messages under one key: `get(key)`, where a missing entry counts as an empty one.
abbrev pub entry : {V : Type 0} → ℕ → List (ℕ × List (NodeId × V)) → List (NodeId × V)
entry k m = elim (lookup ℕ_discrete k m) [ none ↦ [] | some e ↦ e ]

-- `entry(key).or_insert_with(HashMap::new).insert(id, message)`
unfoldable pub record_message :
    {V : Type 0} → ℕ → NodeId → V → List (ℕ × List (NodeId × V)) → List (ℕ × List (NodeId × V))
record_message k id v m = insert ℕ_discrete k (insert bytes_discrete id v (entry k m)) m

module _ (x : External) where
  -- The block that runs once a checkpoint is stable.
  unfoldable pub stabilize : SequenceNumber → PbftState x → PbftState x
  stabilize sequence s = record s {
    stable_checkpoint = sequence;
    low_watermark = sequence;
    high_watermark = wrap64 (sequence + wrap64 (s.config.checkpoint_interval * 2));
    log = retain (λ seq. ltb sequence seq) s.log;
    checkpoints = retain (λ seq. leb sequence seq) s.checkpoints;
  }

  unfoldable pub handle_checkpoint : Checkpoint → Engine x (Unit {0})
  handle_checkpoint c = do
    write x (λ s. record s { checkpoints = record_message c.sequence c.replica_id c s.checkpoints })
    s ← read x (λ s. s)
    let entry_len = length (entry c.sequence s.checkpoints)
    branch (leb (quorum s.config) entry_len && ltb s.stable_checkpoint c.sequence)
        (write x (stabilize c.sequence)) (pure tt)

  -- The new view that the replica announces if it leads that view.
  unfoldable pub make_new_view : ViewNumber → PbftState x → NodeId → Option NewView
  make_new_view new_view s leader =
      if same leader s.node_id
      then some (record {
        new_view = new_view;
        view_changes = values (entry new_view s.view_changes);
        primary_id = s.node_id;
        signature = sign x s (new_view_data new_view);
      })
      else none

  -- The block that runs once there are enough view changes.
  unfoldable pub lead_new_view : ViewNumber → PbftState x → Engine x (Option NewView)
  lead_new_view new_view s = do
    leader ← unwrap (replica_for x s.replicas new_view)
    pure (make_new_view new_view s leader)

  unfoldable pub collect_view_change : ViewChange → Engine x (Option NewView)
  collect_view_change vc = do
    view ← read x (λ s. s.view)
    return_if (leb vc.new_view view)
    write x (λ s. record s {
      view_changes = record_message vc.new_view vc.replica_id vc s.view_changes;
    })
    s ← read x (λ s. s)
    let entry_len = length (entry vc.new_view s.view_changes)
    branch (leb (quorum s.config) entry_len) (lead_new_view vc.new_view s) (pure none)

  abbrev pub announce : Option NewView → Engine x (Unit {0})
  announce none = pure tt
  announce (some nv) = broadcast_consensus x (ConsensusMessage.new_view nv)

  unfoldable pub handle_view_change : ViewChange → Engine x (Unit {0})
  handle_view_change vc = do new_view_msg ← collect_view_change vc; announce new_view_msg

  unfoldable pub handle_new_view : ℕ → NewView → Engine x (Unit {0})
  handle_new_view now nv = do
    view ← read x (λ s. s.view)
    return_if (leb nv.new_view view)
    write x (λ s. record s {
      view = nv.new_view;
      view_changing = false;
      last_primary_activity = now;
      view_changes = retain (λ v. ltb nv.new_view v) s.view_changes;
    })

  unfoldable pub make_view_change : Engine x ViewChange
  make_view_change = do
    s ← read x (λ s. s)
    return_if s.view_changing
    let new_view = wrap64 (s.view + 1)
    let vc : ViewChange = record {
      new_view = new_view;
      replica_id = s.node_id;
      last_sequence = s.sequence;
      signature = sign x s (view_change_data new_view);
    }
    write x (λ s. record s {
      view_changing = true;
      view_changes = record_message new_view s.node_id vc s.view_changes;
    })
    pure vc

  unfoldable pub start_view_change : Engine x (Unit {0})
  start_view_change = do
    vc ← make_view_change
    broadcast_consensus x (ConsensusMessage.view_change vc)

  -- `last_primary_activity.elapsed()` is 0 where the clock has not moved on.
  unfoldable pub check_timeout : ℕ → Engine x (Unit {0})
  check_timeout now = do
    s ← read x (λ s. s)
    return_if s.view_changing
    leader ← unwrap (primary x s)
    branch
        (not (same leader s.node_id)
          && ltb s.config.view_change_timeout (now - s.last_primary_activity))
        start_view_change (pure tt)
