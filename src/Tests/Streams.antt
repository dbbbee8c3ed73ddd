-- ===== src/Tests/Streams.antt =====
-- Messages on a stream, with a stand-in for bincode that writes pings only.
use p2p_pbft.Base.{
  ◌+◌, ◌%◌, ◌^◌, ◌<◌, ◌≤◌, ◌⊎◌, ◌≡◌, take, drop, refl, [], ◌∷◌, ◌++◌, Option, none, some, length,
  replicate, Bytes, arith, true,
}
use p2p_pbft.Base.Map.{is_some}
use p2p_pbft.Base.Flow.{err, next, ok_or, outcome}
use p2p_pbft.Message.{NetworkMessage, ping}
use p2p_pbft.Network.{io, serialization}
use p2p_pbft.Network.Frame.{
  Bincode, max_message_size, send_message, receive_message, peer_writer, peer_reader,
}
use p2p_pbft.Network.RoundTrip.{peer_reader-peer_writer}
use p2p_pbft.Network.Sizes.{receive_message-send_message}
use p2p_pbft.Network.Reading.{peer_reader_returns}

abbrev write_ping : NetworkMessage → Option Bytes
write_ping (ping id time) = some (time ∷ id)
write_ping _ = none

abbrev read_ping : Bytes → Option NetworkMessage
read_ping [] = none
read_ping (time ∷ id) = some (ping id time)

abbrev pings : Bincode
pings = record { serialize = write_ping; deserialize = read_ping }

abbrev first : NetworkMessage
first = ping (b'a' ∷ []) 1

abbrev second : NetworkMessage
second = ping [] 2

peer_reader-peer_writer_example :
    peer_reader pings 3 2 (peer_writer pings (first ∷ second ∷ []) [])
    ≡ some (first ∷ second ∷ [], err io)
peer_reader-peer_writer_example =
    peer_reader-peer_writer pings (first ∷ second ∷ []) 2 3
      ((1 ∷ b'a' ∷ [], refl, refl, omega arith), ((2 ∷ [], refl, refl, omega arith), tt))
      (omega arith) (omega arith)

peer_reader_returns_example : is_some (peer_reader pings 7 5 (3 ∷ 0 ∷ 0 ∷ 0 ∷ 9 ∷ [])) ≡ true
peer_reader_returns_example = peer_reader_returns pings (3 ∷ 0 ∷ 0 ∷ 0 ∷ 9 ∷ []) 5 7 (omega arith)

-- One byte more than the limit.
large : Bytes
large = replicate (max_message_size + 1) 0

abbrev always_large : Bincode
always_large = record { serialize = λ _. some large; deserialize = λ _. some first }

receive_message-send_message_example :
    let n = length large % 2 ^ 32 in
    (written : Bytes) × (send_message always_large first [] ≡ next tt written)
    × (((max_message_size < n) × (outcome (receive_message always_large (written ++ [])) ≡ err io))
        ⊎ ((n ≤ max_message_size)
            × (receive_message always_large (written ++ [])
                ≡ ok_or
                    (always_large.deserialize (take n large))
                    serialization
                    (drop n large ++ []))))
receive_message-send_message_example = receive_message-send_message always_large first large [] refl
