-- ===== src/Pbft/Signing.antt =====
-- src/pbft.rs: the texts that the replicas sign, and the check of a signature of a node.
use p2p_pbft.Base.{◌∷◌, ◌++◌, Bool, false, Option, none, some, Bytes}
use p2p_pbft.External.{External}
use p2p_pbft.Format.{text, decimal, debug}
use p2p_pbft.Message.{NodeId, ViewNumber, SequenceNumber, Hash}
use p2p_pbft.Crypto.{verify_signature, is_ok}

-- `format!("{}-{}-{:?}", view, sequence, digest)`, for a pre-prepare and for a prepare.
unfoldable pub proposal_data : ViewNumber → SequenceNumber → Hash → Bytes
proposal_data view sequence digest =
    decimal view ++ (b'-' ∷ (decimal sequence ++ (b'-' ∷ debug digest)))

-- `format!("{}-{}-{:?}-commit", view, sequence, digest)`
unfoldable pub commit_data : ViewNumber → SequenceNumber → Hash → Bytes
commit_data view sequence digest =
    decimal view ++ (b'-' ∷ (decimal sequence ++ (b'-' ∷ (debug digest ++ text "-commit"))))

-- `format!("{}-{:?}", sequence, digest)`
unfoldable pub checkpoint_data : SequenceNumber → Hash → Bytes
checkpoint_data sequence digest = decimal sequence ++ (b'-' ∷ debug digest)

-- `format!("{}-new-view", new_view)`
unfoldable pub new_view_data : ViewNumber → Bytes
new_view_data new_view = decimal new_view ++ text "-new-view"

-- `format!("{}-view-change", new_view)`
unfoldable pub view_change_data : ViewNumber → Bytes
view_change_data new_view = decimal new_view ++ text "-view-change"

module _ (x : External) where
  unfoldable pub node_id_to_public_key : NodeId → Option Bytes
  node_id_to_public_key node_id = x.hex_decode node_id

  unfoldable pub verify_node_signature : NodeId → Bytes → Bytes → Bool
  verify_node_signature node_id message signature = elim (node_id_to_public_key node_id) [
    | none ↦ false
    | some pk ↦ is_ok (verify_signature x pk message signature)
  ]
