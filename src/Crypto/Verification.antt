-- ===== src/Crypto/Verification.antt =====
-- src/crypto.rs: which signatures are accepted.
use p2p_pbft.Base.{◌≡◌, arith, Bytes}
use p2p_pbft.External.{External, Laws}
use p2p_pbft.Crypto.{
  ok, from_seed, sign, verify, verify_signature, public_key_bytes, check_signature,
}

module _ (x : External) (laws : Laws x) where
  check_signature_own :
      (k : x.SigningKey) (message : Bytes)
      → check_signature x (x.verifying_key k) message (x.sign k message) ≡ ok
  unfolding check_signature
  check_signature_own k message =
      ground (arith, laws.sign_length k message, laws.verify_sign k message)

  -- What a key pair made from a seed signs is accepted, by the pair itself and against the bytes of its
  -- public key.
  pub verify-sign :
      (seed message : Bytes)
      → let k = from_seed x seed in
        (verify x k message (sign x k message) ≡ ok)
        × (verify_signature x (public_key_bytes x k) message (sign x k message) ≡ ok)
  unfolding from_seed sign verify verify_signature public_key_bytes
  verify-sign seed message =
      let k = x.signing_key_from_bytes seed in
      let v = x.verifying_key k in
      ground (arith, check_signature_own k message, laws.key_length v, laws.key_bytes v)
