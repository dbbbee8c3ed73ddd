-- ===== src/Tests/Sample.antt =====
-- A stand-in for the external crates: a key is a number, and its signature repeats the number.
use p2p_pbft.Base.{ℕ, ◌≡◌, refl, List, [], ◌∷◌, true, some, Bytes, same, replicate, arith}
use p2p_pbft.External.{External, Laws}
use p2p_pbft.Message.{NodeId, Request}
use p2p_pbft.Crypto.{KeyPair}

abbrev head_or_zero : Bytes → ℕ
head_or_zero [] = 0
head_or_zero (b ∷ _) = b

abbrev pub sample : External
sample = record {
  SigningKey = ℕ;
  VerifyingKey = ℕ;
  signing_key_from_bytes = head_or_zero;
  verifying_key = λ k. k;
  sign = λ k m. replicate 64 k;
  verifying_key_to_bytes = λ v. v ∷ replicate 31 0;
  verifying_key_from_bytes = λ b. some (head_or_zero b);
  verify = λ v m s. same s (replicate 64 v);
  hex_encode = λ b. b;
  hex_decode = λ b. some b;
  sha256 = λ b. b;
}

same_refl : (b : Bytes) → same b b ≡ true
same_refl b = ground arith

pub sample_laws : Laws sample
sample_laws = record {
  verify_sign = λ k m. same_refl (replicate 64 k);
  sign_length = λ k m. refl;
  key_length = λ v. refl;
  key_bytes = λ v. refl;
  hex_bytes = λ b. refl;
}

-- Node `i`.
abbrev pub node : ℕ → NodeId
node i = i ∷ replicate 31 0

abbrev pub pair : ℕ → KeyPair sample
pair i = record { signing_key = i; verifying_key = i }

abbrev pub signature_of : ℕ → Bytes
signature_of i = replicate 64 i

abbrev pub four : List NodeId
four = node 0 ∷ node 1 ∷ node 2 ∷ node 3 ∷ []

abbrev pub hello : Request
hello = record { client_id = b'c' ∷ []; timestamp = 7; operation = b'h' ∷ b'i' ∷ [] }

abbrev pub bye : Request
bye = record { client_id = b'c' ∷ []; timestamp = 8; operation = b'x' ∷ [] }
