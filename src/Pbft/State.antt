-- ===== src/Pbft/State.antt =====
-- src/pbft.rs: `ConsensusInstance`, `PbftState` and `PbftConsensus`. The engine is its state under
-- the lock with the messages that it has handed to its two channels, the latest first; the receiving
-- ends are open and drained, so that a send neither fails nor waits. A clock reading is an argument of
-- what reads the clock.
use p2p_pbft.Base.{
  ℕ, ◌*◌, ◌%◌, List, [], ◌∷◌, Bool, false, Option, none, some, Bytes, same, wrap64, length,
  get_elem?, ℕ_discrete,
}
use p2p_pbft.Base.Map.{lookup, insert}
use p2p_pbft.Base.Flow.{Flow, gets, modify}
use p2p_pbft.External.{External}
use p2p_pbft.Message.{
  NodeId, ViewNumber, SequenceNumber, Hash, Request, PrePrepare, Prepare, Commit, ViewChange,
  Checkpoint, NetworkMessage, ConsensusMessage, consensus,
}
use p2p_pbft.Crypto.{KeyPair}
use p2p_pbft.Crypto
use p2p_pbft.Pbft.Config.{PbftConfig, PbftError}

pub data OutgoingMessage : Type 0 where
  broadcast : NetworkMessage → OutgoingMessage
  send_to : NodeId → NetworkMessage → OutgoingMessage

pub data Phase : Type 0 where
  idle pre_prepared prepared committed : Phase

pub record ConsensusInstance : Type 0 where
  pub sequence : SequenceNumber
  pub view : ViewNumber
  pub request : Option Request
  pub digest : Option Hash
  pub phase : Phase
  pub pre_prepare : Option PrePrepare
  pub prepares : List (NodeId × Prepare)
  pub commits : List (NodeId × Commit)
  pub started_at : ℕ

unfoldable pub instance_new : ℕ → SequenceNumber → ViewNumber → ConsensusInstance
instance_new now sequence view = record {
  sequence = sequence;
  view = view;
  request = none;
  digest = none;
  phase = idle;
  pre_prepare = none;
  prepares = [];
  commits = [];
  started_at = now;
}

pub record PbftState (x : External) : Type 0 where
  pub node_id : NodeId
  pub keypair : KeyPair x
  pub view : ViewNumber
  pub sequence : SequenceNumber
  pub low_watermark : SequenceNumber
  pub high_watermark : SequenceNumber
  pub config : PbftConfig
  pub replicas : List NodeId
  pub log : List (SequenceNumber × ConsensusInstance)
  pub executed : List Hash
  pub checkpoints : List (SequenceNumber × List (NodeId × Checkpoint))
  pub stable_checkpoint : SequenceNumber
  pub view_changes : List (ViewNumber × List (NodeId × ViewChange))
  pub view_changing : Bool
  pub last_primary_activity : ℕ

pub record PbftConsensus (x : External) : Type 0 where
  pub state : PbftState x
  pub outgoing : List OutgoingMessage
  pub committed : List Request

module _ (x : External) where
  unfoldable pub state_new : ℕ → NodeId → KeyPair x → List NodeId → PbftConfig → PbftState x
  state_new now node_id keypair replicas config = record {
    node_id = node_id;
    keypair = keypair;
    view = 0;
    sequence = 0;
    low_watermark = 0;
    high_watermark = wrap64 (config.checkpoint_interval * 2);
    config = config;
    replicas = replicas;
    log = [];
    executed = [];
    checkpoints = [];
    stable_checkpoint = 0;
    view_changes = [];
    view_changing = false;
    last_primary_activity = now;
  }

  unfoldable pub consensus_new : PbftState x → PbftConsensus x
  consensus_new state = record { state = state; outgoing = []; committed = [] }

  -- The replica at an index modulo their number; `none` is the panic on an empty list.
  unfoldable pub replica_for : List NodeId → ViewNumber → Option NodeId
  replica_for replicas view = get_elem? replicas (view % length replicas)

  unfoldable pub primary : PbftState x → Option NodeId
  primary s = replica_for s.replicas s.view

  -- `none` is the panic of `primary`.
  unfoldable pub is_primary : PbftState x → Option Bool
  is_primary s = elim (primary s) [ none ↦ none | some p ↦ some (same p s.node_id) ]

  abbrev instance_or :
      ℕ → SequenceNumber → ViewNumber → Option ConsensusInstance → ConsensusInstance
  instance_or now sequence view none = instance_new now sequence view
  instance_or now sequence view (some i) = i

  -- `entry(sequence).or_insert_with(...)`: the entry that `get_or_create_instance` lends, which the
  -- callers write back by `put_instance`.
  unfoldable pub get_or_create_instance : ℕ → SequenceNumber → PbftState x → ConsensusInstance
  get_or_create_instance now sequence s =
      instance_or now sequence s.view (lookup ℕ_discrete sequence s.log)

  unfoldable pub put_instance : SequenceNumber → ConsensusInstance → PbftState x → PbftState x
  put_instance sequence i s = record s { log = insert ℕ_discrete sequence i s.log }

  unfoldable pub sign : PbftState x → Bytes → Bytes
  sign s bytes = Crypto.sign x s.keypair bytes

  -- Code of the engine.
  abbrev pub Engine : Type 0 → Type 0
  Engine = Flow (PbftConsensus x) PbftError

  abbrev pub read : {A : Type 0} → (PbftState x → A) → Engine A
  read f = gets (λ w. f w.state)

  abbrev pub write : (PbftState x → PbftState x) → Engine (Unit {0})
  write f = modify (λ w. record w { state = f w.state })

  -- `let _ = self.outgoing_tx.send(...).await`
  abbrev pub send : OutgoingMessage → Engine (Unit {0})
  send m = modify (λ w. record w { outgoing = m ∷ w.outgoing })

  abbrev pub broadcast_consensus : ConsensusMessage → Engine (Unit {0})
  broadcast_consensus m = send (broadcast (consensus m))

  -- `let _ = self.committed_tx.send(...).await`
  abbrev pub deliver : Request → Engine (Unit {0})
  deliver r = modify (λ w. record w { committed = r ∷ w.committed })
