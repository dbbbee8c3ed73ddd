-- ===== src/Message.antt =====
-- src/message.rs: the messages of the network and of the consensus, and the digest of a request.
-- A `String` is its UTF-8 bytes; a `Hash` is a byte string, of 32 bytes in the source.
pub mod Digest
use p2p_pbft.Base.{ℕ, List, ◌++◌, Bytes}
use p2p_pbft.External.{External}
use p2p_pbft.Words.{to_le_bytes}

abbrev pub NodeId : Type 0
NodeId = Bytes

abbrev pub ViewNumber : Type 0
ViewNumber = ℕ

abbrev pub SequenceNumber : Type 0
SequenceNumber = ℕ

abbrev pub Hash : Type 0
Hash = Bytes

pub record Request : Type 0 where
  pub client_id : Bytes
  pub timestamp : ℕ
  pub operation : Bytes

pub record PrePrepare : Type 0 where
  pub view : ViewNumber
  pub sequence : SequenceNumber
  pub digest : Hash
  pub request : Request
  pub primary_id : NodeId
  pub signature : Bytes

pub record Prepare : Type 0 where
  pub view : ViewNumber
  pub sequence : SequenceNumber
  pub digest : Hash
  pub replica_id : NodeId
  pub signature : Bytes

pub record Commit : Type 0 where
  pub view : ViewNumber
  pub sequence : SequenceNumber
  pub digest : Hash
  pub replica_id : NodeId
  pub signature : Bytes

pub record Reply : Type 0 where
  pub view : ViewNumber
  pub timestamp : ℕ
  pub client_id : Bytes
  pub replica_id : NodeId
  pub result : Bytes
  pub signature : Bytes

pub record ViewChange : Type 0 where
  pub new_view : ViewNumber
  pub replica_id : NodeId
  pub last_sequence : SequenceNumber
  pub signature : Bytes

pub record NewView : Type 0 where
  pub new_view : ViewNumber
  pub view_changes : List ViewChange
  pub primary_id : NodeId
  pub signature : Bytes

pub record Checkpoint : Type 0 where
  pub sequence : SequenceNumber
  pub digest : Hash
  pub replica_id : NodeId
  pub signature : Bytes

pub data ConsensusMessage : Type 0 where
  request : Request → ConsensusMessage
  pre_prepare : PrePrepare → ConsensusMessage
  prepare : Prepare → ConsensusMessage
  commit : Commit → ConsensusMessage
  reply : Reply → ConsensusMessage
  view_change : ViewChange → ConsensusMessage
  new_view : NewView → ConsensusMessage
  checkpoint : Checkpoint → ConsensusMessage

pub data NetworkMessage : Type 0 where
  handshake : NodeId → ℕ → NetworkMessage
  handshake_ack : NodeId → List (NodeId × Bytes) → NetworkMessage
  ping : NodeId → ℕ → NetworkMessage
  pong : NodeId → ℕ → NetworkMessage
  consensus : ConsensusMessage → NetworkMessage

module _ (x : External) where
  -- `Request::digest`: the hasher is fed the three fields one after the other.
  unfoldable pub request_digest : Request → Hash
  request_digest r = x.sha256 (r.client_id ++ to_le_bytes 8 r.timestamp ++ r.operation)

  unfoldable pub compute_hash : Bytes → Hash
  compute_hash bytes = x.sha256 bytes
