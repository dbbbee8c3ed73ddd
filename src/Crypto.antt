-- ===== src/Crypto.antt =====
-- src/crypto.rs: key pairs, signing, and the check of a signature against the bytes of a key.
pub mod Verification
use p2p_pbft.Base.{ℕ, Bool, true, false, Option, none, some, Bytes, length, ◌==◌, if◌then◌else◌}
use p2p_pbft.External.{External}

pub data CryptoError : Type 0 where
  signature_verification_failed invalid_key_format : CryptoError
  signing_failed : Bytes → CryptoError

-- `Result<(), CryptoError>`.
pub data CryptoResult : Type 0 where
  ok : CryptoResult
  err : CryptoError → CryptoResult

pub record KeyPair (x : External) : Type 0 where
  pub signing_key : x.SigningKey
  pub verifying_key : x.VerifyingKey

-- `Result::is_ok`.
abbrev pub is_ok : CryptoResult → Bool
is_ok ok = true
is_ok (err e) = false

module _ (x : External) where
  -- `KeyPair::generate`, on the key that the generator of `OsRng` draws.
  pub generate : x.SigningKey → KeyPair x
  generate drawn = record { signing_key = drawn; verifying_key = x.verifying_key drawn }

  -- `KeyPair::from_seed`; the source's type fixes the seed's length to 32.
  unfoldable pub from_seed : Bytes → KeyPair x
  from_seed seed =
      let signing_key = x.signing_key_from_bytes seed in
      record { signing_key = signing_key; verifying_key = x.verifying_key signing_key }

  unfoldable pub sign : KeyPair x → Bytes → Bytes
  sign k message = x.sign k.signing_key message

  -- `verifying_key.verify(...).map_err(...)`, once the signature has 64 bytes.
  check_signature : x.VerifyingKey → Bytes → Bytes → CryptoResult
  check_signature v message signature =
      if length signature == 64
      then (if x.verify v message signature then ok else err signature_verification_failed)
      else err invalid_key_format

  pub verify : KeyPair x → Bytes → Bytes → CryptoResult
  unfolding check_signature
  verify k message signature = check_signature k.verifying_key message signature

  unfoldable pub public_key_bytes : KeyPair x → Bytes
  public_key_bytes k = x.verifying_key_to_bytes k.verifying_key

  unfoldable pub public_key_hex : KeyPair x → Bytes
  public_key_hex k = x.hex_encode (public_key_bytes k)

  check_key : Option x.VerifyingKey → Bytes → Bytes → CryptoResult
  check_key none message signature = err invalid_key_format
  check_key (some v) message signature = check_signature v message signature

  unfoldable pub verify_signature : Bytes → Bytes → Bytes → CryptoResult
  unfolding check_key check_signature
  verify_signature public_key message signature =
      if length public_key == 32
      then check_key (x.verifying_key_from_bytes public_key) message signature
      else err invalid_key_format
