-- ===== src/Network/Sizes.antt =====
-- src/network.rs: `send_message` and `receive_message` on messages of any size.
use mathlib.Core.List.{append_assoc}
use p2p_pbft.Base.{
  ℕ, zero, suc, ◌%◌, ◌^◌, ◌≤◌, ◌<◌, ◌≡◌, ◌⊎◌, refl, inl, inr, ap, sym, ◌∙◌, leb, [], ◌∷◌, ◌++◌,
  take, drop, length, some, Bytes, arith, Bool-cases,
}
use p2p_pbft.Base.Flow.{err, next, ◌>>=◌, ◌>>◌, guard, ok_or, flow, outcome}
use p2p_pbft.Base.Flow.Runs.{bind-next, guard-true, guard-false}
use p2p_pbft.Words.{to_le_bytes}
use p2p_pbft.Message.{NetworkMessage}
use p2p_pbft.Network.{io, serialization}
use p2p_pbft.Network.Frame.{Bincode, max_message_size, read_exact, send_message, receive_message}
use p2p_pbft.Network.RoundTrip.{read_exact-append, receive_message-prefixed}

take-drop : (n : ℕ) (bytes : Bytes) → take n bytes ++ drop n bytes ≡ bytes
take-drop zero bytes = refl
take-drop (suc n) [] = refl
take-drop (suc n) (c ∷ bytes) = ap (λ l. c ∷ l) (take-drop n bytes)

length-take : (n : ℕ) (bytes : Bytes) → n ≤ length bytes → length (take n bytes) ≡ n
length-take zero bytes h = refl
length-take (suc n) [] h = omega arith
length-take (suc n) (c ∷ bytes) h = ap suc (length-take n bytes (omega arith))

read_exact-part :
    (n : ℕ) (bytes left : Bytes)
    → n ≤ length bytes
    → read_exact n (bytes ++ left) ≡ next (take n bytes) (drop n bytes ++ left)
read_exact-part n bytes left has =
    ap (read_exact n) (
      ap (λ l. l ++ left) (sym (take-drop n bytes))
      ∙ append_assoc (take n bytes) (drop n bytes) left)
    ∙ read_exact-append n (take n bytes) (drop n bytes ++ left) (length-take n bytes has)

module _ (b : Bincode) where
  received_part :
      (n : ℕ) (bytes left : Bytes)
      → n ≤ length bytes
      → n ≤ max_message_size
      → (guard (leb n max_message_size) io
            >> (read_exact n >>= λ body. ok_or (b.deserialize body) serialization))
          (bytes ++ left)
        ≡ ok_or (b.deserialize (take n bytes)) serialization (drop n bytes ++ left)
  received_part n bytes left has small =
      guard-true _ _ _ _ (ground arith)
      ∙ bind-next (read_exact n) _ (bytes ++ left) (drop n bytes ++ left) (take n bytes)
          (read_exact-part n bytes left has)

  -- A message of any size is sent, with its length modulo 2^32. The receiver refuses it if that number is
  -- larger than the limit. If it is not, the receiver reads the message from that many of its bytes, which
  -- are not all where the message has 2^32 bytes or more, and the others are left on the stream.
  pub receive_message-send_message :
      (msg : NetworkMessage) (bytes left : Bytes)
      → b.serialize msg ≡ some bytes
      → let n = length bytes % 2 ^ 32 in
        (written : Bytes) × (send_message b msg [] ≡ next tt written)
        × (((max_message_size < n) × (outcome (receive_message b (written ++ left)) ≡ err io))
            ⊎ ((n ≤ max_message_size)
                × (receive_message b (written ++ left)
                    ≡ ok_or (b.deserialize (take n bytes)) serialization (drop n bytes ++ left))))
  unfolding flow send_message
  receive_message-send_message msg bytes left sent =
      let n = length bytes % 2 ^ 32 in
      let prefix = to_le_bytes 4 n in
      let read =
        ap (receive_message b) (append_assoc prefix bytes left)
        ∙ receive_message-prefixed b n (bytes ++ left) (omega arith) in
      (
        prefix ++ bytes,
        rw (sent) refl,
        elim (Bool-cases (leb n max_message_size)) [
          | inl fits ↦
              inr (ground arith, read ∙ received_part n bytes left (omega arith) (ground arith))
          | inr large ↦ inl (ground arith, ap outcome read ∙ ap outcome (guard-false _ _ _ _ large))
        ],
      )
