-- ===== src/Pbft/OwnSignature.antt =====
-- src/pbft.rs: that replicas accept what a replica signs under its own name.
use p2p_pbft.Base.{◌≡◌, ap, ◌∙◌, Bool, true, false, none, some, Bytes}
use p2p_pbft.External.{External, Laws}
use p2p_pbft.Crypto.{from_seed, sign, verify_signature, public_key_bytes, public_key_hex, is_ok}
use p2p_pbft.Crypto.Verification.{verify-sign}
use p2p_pbft.Pbft.State.{PbftState}
use p2p_pbft.Pbft.State
use p2p_pbft.Pbft.Signing.{verify_node_signature, node_id_to_public_key}

module _ (x : External) (laws : Laws x) where
  named_key_accepts :
      (seed message : Bytes)
      → let k = from_seed x seed in
        verify_node_signature x (public_key_hex x k) message (sign x k message) ≡ true
  unfolding verify_node_signature node_id_to_public_key public_key_hex
  named_key_accepts seed message =
      let k = from_seed x seed in
      let (_, accepted) = verify-sign x laws seed message in
      let signature = sign x k message in
      ap
        (λ o.
          let u : Bool = elim o [
            | none ↦ false
            | some pk ↦ is_ok (verify_signature x pk message signature)
          ] in
          u)
        (laws.hex_bytes (public_key_bytes x k))
      ∙ ap is_ok accepted

  -- If a replica's keys are made from a seed and its node id is its public key in hex, as src/main.rs
  -- arranges, whatever it signs is accepted by every replica as signed by that node id.
  pub own_signature_accepted :
      (seed message : Bytes) (s : PbftState x)
      → s.keypair ≡ from_seed x seed
      → s.node_id ≡ public_key_hex x s.keypair
      → verify_node_signature x s.node_id message (State.sign x s message) ≡ true
  unfolding State.sign
  own_signature_accepted seed message s own_key own_name =
      rw (own_name, own_key) (named_key_accepts seed message)
