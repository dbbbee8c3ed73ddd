-- ===== src/Network/RoundTrip.antt =====
-- src/network.rs: what is sent over a stream is received, message by message.
use mathlib.Core.List.{append_assoc, append-nil}
use p2p_pbft.Base.{
  ℕ, ◌^◌, ◌%◌, ◌≤◌, ◌<◌, ◌≡◌, refl, zero, suc, leb, List, [], ◌∷◌, ◌++◌, Option, some, length,
  Bytes, arith, ap, sym, subst, ◌∙◌, take-append, drop-append, length-append, true,
}
use p2p_pbft.Base.Flow.{Outcome, ok, err, next, stop, ◌>>=◌, ◌>>◌, guard, ok_or, flow}
use p2p_pbft.Base.Flow.Runs.{bind-next, bind-stop, guard-true}
use p2p_pbft.Words.{to_le_bytes, length-to_le_bytes, from_le_bytes-to_le_bytes}
use p2p_pbft.Message.{NetworkMessage}
use p2p_pbft.Network.{NetworkError, io, serialization}
use p2p_pbft.Network.Frame.{
  Bincode, max_message_size, read_exact, send_message, receive_message, peer_writer, peer_reader,
  forward,
}

-- A read of what stands first in the stream gives it and leaves the rest.
pub read_exact-append :
    (n : ℕ) (bytes left : Bytes) → length bytes ≡ n → read_exact n (bytes ++ left) ≡ next bytes left
unfolding flow read_exact
read_exact-append n bytes left h =
    let enough : leb (length bytes) (length (bytes ++ left)) ≡ true =
      ground (arith, length-append bytes left) in
    rw (sym h, enough, take-append bytes left, drop-append bytes left) refl

-- A stream that is too short fails the read.
read_exact-short :
    (n : ℕ) (stream : Bytes) → length stream < n → read_exact n stream ≡ stop (err io) stream
unfolding flow read_exact
read_exact-short n stream h = ground arith

-- The bytes of one message on the stream.
abbrev pub framed : Bytes → Bytes
framed bytes = to_le_bytes 4 (length bytes) ++ bytes

module _ (b : Bincode) where
  -- A message whose serialization is within the limit and is read back.
  abbrev pub Fits : NetworkMessage → Type 0
  Fits msg =
      (bytes : Bytes) × (b.serialize msg ≡ some bytes)
      × (b.deserialize bytes ≡ some msg)
      × (length bytes ≤ max_message_size)

  abbrev pub AllFit : List NetworkMessage → Type 0
  AllFit [] = Unit {0}
  AllFit (msg ∷ msgs) = Fits msg × AllFit msgs

  pub send_message-framed :
      (msg : NetworkMessage) (bytes written : Bytes)
      → b.serialize msg ≡ some bytes
      → length bytes < 2 ^ 32
      → send_message b msg written ≡ next tt (written ++ framed bytes)
  unfolding flow send_message
  send_message-framed msg bytes written sent small =
      let same_length : length bytes % 2 ^ 32 ≡ length bytes = omega arith in
      rw (sent, same_length, append_assoc written (to_le_bytes 4 (length bytes)) bytes) refl

  -- The length comes first; what follows depends on whether it is within the limit.
  pub receive_message-prefixed :
      (n : ℕ) (left : Bytes)
      → n < 2 ^ 32
      → receive_message b (to_le_bytes 4 n ++ left)
        ≡ (guard (leb n max_message_size) io
              >> (read_exact n >>= λ body. ok_or (b.deserialize body) serialization))
            left
  unfolding receive_message
  receive_message-prefixed n left small =
      subst
        (λ m.
          receive_message b (to_le_bytes 4 n ++ left)
          ≡ (guard (leb m max_message_size) io
                >> (read_exact m >>= λ body. ok_or (b.deserialize body) serialization))
              left)
        (from_le_bytes-to_le_bytes n small)
        (bind-next (read_exact 4) _ (to_le_bytes 4 n ++ left) _ _
          (read_exact-append 4 (to_le_bytes 4 n) left (length-to_le_bytes 4 n)))

  receive_message-framed :
      (bytes left : Bytes)
      → length bytes < 2 ^ 32
      → receive_message b (framed bytes ++ left)
        ≡ (guard (leb (length bytes) max_message_size) io
              >> (read_exact (length bytes) >>= λ body. ok_or (b.deserialize body) serialization))
            (bytes ++ left)
  receive_message-framed bytes left small =
      ap (receive_message b) (append_assoc (to_le_bytes 4 (length bytes)) bytes left)
      ∙ receive_message-prefixed (length bytes) (bytes ++ left) small

  pub receive_message-Fits :
      (msg : NetworkMessage) (bytes left : Bytes)
      → b.deserialize bytes ≡ some msg
      → length bytes ≤ max_message_size
      → receive_message b (framed bytes ++ left) ≡ next msg left
  unfolding ok_or
  receive_message-Fits msg bytes left read small =
      receive_message-framed bytes left (omega arith)
      ∙ (guard-true _ _ _ _ (ground arith)
          ∙ (bind-next (read_exact (length bytes)) _ (bytes ++ left) left bytes
                (read_exact-append (length bytes) bytes left refl)
              ∙ ap (λ o. ok_or o serialization left) read))

  write-next :
      (msg : NetworkMessage) (msgs : List NetworkMessage) (written more : Bytes)
      → send_message b msg written ≡ next tt more
      → peer_writer b (msg ∷ msgs) written ≡ peer_writer b msgs more
  unfolding peer_writer
  write-next msg msgs written more h =
      ap
        (λ r.
          let u : Bytes = elim r [ next _ more ↦ peer_writer b msgs more | stop _ more ↦ more ] in
          u)
        h

  pub read-next :
      (fuel room : ℕ) (stream left : Bytes) (msg : NetworkMessage)
      → receive_message b stream ≡ next msg left
      → peer_reader b (suc fuel) (suc room) stream ≡ forward msg (peer_reader b fuel room left)
  unfolding peer_reader
  read-next fuel room stream left msg h =
      ap
        (λ r.
          let u : Option (List NetworkMessage × Outcome NetworkError) = elim r [
            | next msg left ↦ forward msg (peer_reader b fuel room left)
            | stop r left ↦ some ([], r)
          ] in
          u)
        h

  -- The receiver has been dropped.
  pub read-full :
      (fuel : ℕ) (stream left : Bytes) (msg : NetworkMessage)
      → receive_message b stream ≡ next msg left
      → peer_reader b (suc fuel) 0 stream ≡ some ([], ok)
  unfolding peer_reader
  read-full fuel stream left msg h =
      ap
        (λ r.
          let u : Option (List NetworkMessage × Outcome NetworkError) = elim r [
            | next msg left ↦ some ([], ok)
            | stop r left ↦ some ([], r)
          ] in
          u)
        h

  pub read-stop :
      (fuel room : ℕ) (stream left : Bytes) (r : Outcome NetworkError)
      → receive_message b stream ≡ stop r left
      → peer_reader b (suc fuel) room stream ≡ some ([], r)
  unfolding peer_reader
  read-stop fuel zero stream left r h =
      ap
        (λ r.
          let u : Option (List NetworkMessage × Outcome NetworkError) = elim r [
            | next msg left ↦ some ([], ok)
            | stop r left ↦ some ([], r)
          ] in
          u)
        h
  read-stop fuel (suc room) stream left r h =
      ap
        (λ r.
          let u : Option (List NetworkMessage × Outcome NetworkError) = elim r [
            | next msg left ↦ forward msg (peer_reader b fuel room left)
            | stop r left ↦ some ([], r)
          ] in
          u)
        h

  peer_writer-append :
      (msgs : List NetworkMessage) (written : Bytes)
      → AllFit msgs
      → peer_writer b msgs written ≡ written ++ peer_writer b msgs []
  unfolding peer_writer
  peer_writer-append [] written fit = sym (append-nil written)
  peer_writer-append (msg ∷ msgs) written ((bytes, sent, read, small), fit) =
      write-next msg msgs written _ (send_message-framed msg bytes written sent (omega arith))
      ∙ (peer_writer-append msgs (written ++ framed bytes) fit
          ∙ (append_assoc written (framed bytes) (peer_writer b msgs [])
              ∙ ap (λ l. written ++ l)
                  (sym (
                    write-next msg msgs [] _ (send_message-framed msg bytes [] sent (omega arith))
                    ∙ peer_writer-append msgs (framed bytes) fit))))

  pub peer_writer-cons :
      (msg : NetworkMessage) (msgs : List NetworkMessage) (bytes : Bytes)
      → b.serialize msg ≡ some bytes
      → length bytes ≤ max_message_size
      → AllFit msgs
      → peer_writer b (msg ∷ msgs) [] ≡ framed bytes ++ peer_writer b msgs []
  peer_writer-cons msg msgs bytes sent small fit =
      write-next msg msgs [] _ (send_message-framed msg bytes [] sent (omega arith))
      ∙ peer_writer-append msgs (framed bytes) fit

  -- At the end of the stream nothing can be read.
  receive_message-end : receive_message b [] ≡ stop (err io) []
  unfolding receive_message
  receive_message-end =
      bind-stop (read_exact 4) _ [] [] (err io) (read_exact-short 4 [] (omega arith))

  -- If every message is read back from its serialization and that is within the limit, and the receiver
  -- takes them all, then what a peer writes is what its reader forwards, in order, before it reports the
  -- end of the stream; more turns than there are messages are enough.
  pub peer_reader-peer_writer :
      (msgs : List NetworkMessage) (room fuel : ℕ)
      → AllFit msgs
      → length msgs ≤ room
      → length msgs < fuel
      → peer_reader b fuel room (peer_writer b msgs []) ≡ some (msgs, err io)
  unfolding peer_writer
  peer_reader-peer_writer msgs room zero fit takes enough = absurd (omega arith)
  peer_reader-peer_writer [] room (suc fuel) fit takes enough =
      read-stop fuel room [] [] (err io) receive_message-end
  peer_reader-peer_writer (msg ∷ msgs) zero (suc fuel) fit takes enough = absurd (omega arith)
  peer_reader-peer_writer (msg ∷ msgs) (suc room) (suc fuel) ((bytes, sent, read, small), fit) takes
        enough =
      let left = peer_writer b msgs [] in
      ap (peer_reader b (suc fuel) (suc room)) (peer_writer-cons msg msgs bytes sent small fit)
      ∙ (read-next fuel room (framed bytes ++ left) left msg
            (receive_message-Fits msg bytes left read small)
          ∙ ap (forward msg)
              (peer_reader-peer_writer msgs room fuel fit (omega arith) (omega arith)))
