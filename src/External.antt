-- ===== src/External.antt =====
-- What the program calls and does not implement: ed25519-dalek, hex, sha2, bincode. Each is an
-- operation of a record that the model takes as a parameter; `Laws` states the documented
-- behaviour of these crates.
use p2p_pbft.Base.{◌≡◌, Bool, true, Option, some, Bytes, length}

pub record External : Type 1 where
  -- ed25519_dalek: `SigningKey::from_bytes`, `SigningKey::verifying_key`, `Signer::sign` followed by
  -- `Signature::to_bytes`, `VerifyingKey::to_bytes`, `VerifyingKey::from_bytes`, `Verifier::verify`
  pub SigningKey : Type 0
  pub VerifyingKey : Type 0
  pub signing_key_from_bytes : Bytes → SigningKey
  pub verifying_key : SigningKey → VerifyingKey
  pub sign : SigningKey → Bytes → Bytes
  pub verifying_key_to_bytes : VerifyingKey → Bytes
  pub verifying_key_from_bytes : Bytes → Option VerifyingKey
  pub verify : VerifyingKey → Bytes → Bytes → Bool
  -- `hex::encode`, `hex::decode`
  pub hex_encode : Bytes → Bytes
  pub hex_decode : Bytes → Option Bytes
  -- `Sha256::new`, `update` on the parts joined, `finalize`
  pub sha256 : Bytes → Bytes

pub record Laws (x : External) : Type 0 where
  -- a key accepts its own signatures
  pub verify_sign :
      (k : x.SigningKey) (m : Bytes) → x.verify (x.verifying_key k) m (x.sign k m) ≡ true
  -- `SIGNATURE_LENGTH` and `PUBLIC_KEY_LENGTH`
  pub sign_length : (k : x.SigningKey) (m : Bytes) → length (x.sign k m) ≡ 64
  pub key_length : (v : x.VerifyingKey) → length (x.verifying_key_to_bytes v) ≡ 32
  -- what is written is read back
  pub key_bytes :
      (v : x.VerifyingKey) → x.verifying_key_from_bytes (x.verifying_key_to_bytes v) ≡ some v
  pub hex_bytes : (b : Bytes) → x.hex_decode (x.hex_encode b) ≡ some b
