-- ===== src/Network/Frame.antt =====
-- src/network.rs: `send_message`, `receive_message` and the loops `peer_writer` and `peer_reader`.
-- A writer is the bytes written so far, a reader the bytes that are still to come before the end of
-- the stream. bincode is a parameter.
use p2p_pbft.Base.{
  ℕ, ◌*◌, ◌^◌, ◌%◌, zero, suc, leb, List, [], ◌∷◌, ◌++◌, Option, none, some, length, take, drop,
  Bytes,
}
use p2p_pbft.Base.Flow.{
  Outcome, ok, next, stop, Flow, ◌>>=◌, ◌>>◌, pure, gets, modify, guard, ok_or,
}
use p2p_pbft.Words.{to_le_bytes, from_le_bytes}
use p2p_pbft.Message.{NetworkMessage}
use p2p_pbft.Network.{NetworkError, io, serialization}

-- `bincode::serialize` and `bincode::deserialize`.
pub record Bincode : Type 0 where
  pub serialize : NetworkMessage → Option Bytes
  pub deserialize : Bytes → Option NetworkMessage

abbrev pub max_message_size : ℕ
max_message_size = 16 * 1024 * 1024

-- `read_exact`, which fails where the stream ends too early.
unfoldable pub read_exact : ℕ → Flow Bytes NetworkError Bytes
read_exact n = do
  stream ← gets (λ s. s)
  guard (leb n (length stream)) io
  modify (drop n)
  pure (take n stream)

-- `write_all`
abbrev pub write_all : Bytes → Flow Bytes NetworkError (Unit {0})
write_all bytes = modify (λ written. written ++ bytes)

abbrev pub forward :
    NetworkMessage
    → Option (List NetworkMessage × Outcome NetworkError)
    → Option (List NetworkMessage × Outcome NetworkError)
forward msg none = none
forward msg (some (msgs, r)) = some (msg ∷ msgs, r)

module _ (b : Bincode) where
  unfoldable pub send_message : NetworkMessage → Flow Bytes NetworkError (Unit {0})
  send_message msg = do
    bytes ← ok_or (b.serialize msg) serialization
    let len = length bytes % 2 ^ 32
    write_all (to_le_bytes 4 len)
    write_all bytes

  unfoldable pub receive_message : Flow Bytes NetworkError NetworkMessage
  receive_message = do
    len_buf ← read_exact 4
    let len = from_le_bytes len_buf
    guard (leb len max_message_size) io
    bytes ← read_exact len
    ok_or (b.deserialize bytes) serialization

  -- The messages come from the channel until it is closed.
  unfoldable pub peer_writer : List NetworkMessage → Bytes → Bytes
  peer_writer [] written = written
  peer_writer (msg ∷ msgs) written = elim (send_message msg written) [
    | next _ more ↦ peer_writer msgs more
    | stop _ more ↦ more
  ]

  -- What is forwarded, and the result. The receiver takes `room` messages and is then dropped. The
  -- first argument bounds the turns of the loop.
  unfoldable pub peer_reader : ℕ → ℕ → Bytes → Option (List NetworkMessage × Outcome NetworkError)
  peer_reader zero room stream = none
  peer_reader (suc fuel) zero stream = elim (receive_message stream) [
    | next msg left ↦ some ([], ok)
    | stop r left ↦ some ([], r)
  ]
  peer_reader (suc fuel) (suc room) stream = elim (receive_message stream) [
    | next msg left ↦ forward msg (peer_reader fuel room left)
    | stop r left ↦ some ([], r)
  ]
