-- ===== src/Network/Reading.antt =====
-- src/network.rs: `peer_reader` comes to an end on every stream.
use p2p_pbft.Base.{
  ℕ, ◌+◌, ◌≤◌, ◌<◌, ◌≡◌, ◌⊎◌, inl, inr, refl, zero, suc, leb, List, Option, none, some, length,
  true, Bytes, arith, ap, ◌∙◌, length-drop, Bool-cases, Option-cases,
}
use p2p_pbft.Base.Map.{is_some}
use p2p_pbft.Base.Flow.{Outcome, Step, next, stop, Flow, ◌>>=◌, ◌>>◌, guard, ok_or, flow}
use p2p_pbft.Words.{from_le_bytes}
use p2p_pbft.Message.{NetworkMessage}
use p2p_pbft.Network.{NetworkError, io, serialization}
use p2p_pbft.Network.Frame.{
  Bincode, max_message_size, read_exact, receive_message, peer_reader, forward,
}
use p2p_pbft.Network.RoundTrip.{read-next, read-full, read-stop}

-- The stream is left with at least `n` bytes less, or the function is left early.
abbrev Consumes : {A : Type 0} → ℕ → Bytes → Step Bytes NetworkError A → Type 0
Consumes n stream (next a left) = length left + n ≤ length stream
Consumes n stream (stop r left) = Unit {0}

bind-Consumes :
    {A B : Type 0} (m : Flow Bytes NetworkError A) (f : A → Flow Bytes NetworkError B) (n k : ℕ)
    (stream : Bytes)
    → Consumes n stream (m stream)
    → ((a : A) (left : Bytes) → Consumes k left (f a left))
    → Consumes (n + k) stream ((m >>= f) stream)
unfolding flow
bind-Consumes {A} {B} m f n k stream h g = go (m stream) h
  where
    go :
        (t : Step Bytes NetworkError A)
        → Consumes n stream t
        → Consumes (n + k) stream (
            let u : Step Bytes NetworkError B = elim t [
              | next a left ↦ f a left
              | stop r left ↦ stop r left
            ] in
            u)
    go (next a left) h = weaken (f a left) (g a left)
      where
        weaken : (u : Step Bytes NetworkError B) → Consumes k left u → Consumes (n + k) stream u
        weaken (next c rest) h' = omega arith
        weaken (stop r rest) h' = tt
    go (stop r left) h = tt

read_exact-Consumes : (n : ℕ) (stream : Bytes) → Consumes n stream (read_exact n stream)
unfolding flow read_exact
read_exact-Consumes n stream = elim (Bool-cases (leb n (length stream))) [
  | inl enough ↦ rw (enough) (ground (arith, length-drop n stream))
  | inr short ↦ rw (short) tt
]

Consumes-weaken :
    {A : Type 0} (n k : ℕ) (stream : Bytes) (t : Step Bytes NetworkError A)
    → Consumes (n + k) stream t
    → Consumes k stream t
Consumes-weaken n k stream (next a left) h = omega arith
Consumes-weaken n k stream (stop r left) h = tt

forward-is_some :
    (msg : NetworkMessage) (o : Option (List NetworkMessage × Outcome NetworkError))
    → is_some o ≡ true
    → is_some (forward msg o) ≡ true
forward-is_some msg none h = h
forward-is_some msg (some (msgs, r)) h = h

module _ (b : Bincode) where
  -- A message may be empty, but its length takes four bytes.
  body-Consumes :
      (n : ℕ) (stream : Bytes)
      → Consumes 0 stream (
          (guard (leb n max_message_size) io
              >> (read_exact n >>= λ body. ok_or (b.deserialize body) serialization))
            stream)
  unfolding flow
  body-Consumes n stream = elim (Bool-cases (leb n max_message_size)) [
    | inl within ↦ rw (within) (
        Consumes-weaken n 0 stream _ (
          bind-Consumes (read_exact n) (λ body. ok_or (b.deserialize body) serialization) n 0 stream
            (read_exact-Consumes n stream) (λ body left. decoded body left)))
    | inr beyond ↦ rw (beyond) tt
  ]
    where
      decoded :
          (body left : Bytes) → Consumes 0 left (ok_or (b.deserialize body) serialization left)
      decoded body left = elim (Option-cases (b.deserialize body)) [
        | inl none_read ↦ rw (none_read) tt
        | inr (msg, read) ↦ rw (read) (omega arith)
      ]

  receive_message-Consumes : (stream : Bytes) → Consumes 4 stream (receive_message b stream)
  unfolding receive_message
  receive_message-Consumes stream =
      bind-Consumes (read_exact 4) _ 4 0 stream (read_exact-Consumes 4 stream)
        (λ len_buf left. body-Consumes (from_le_bytes len_buf) left)

  abbrev Received : Bytes → Type 0
  Received stream =
      ((r : Outcome NetworkError) × (left : Bytes) × (receive_message b stream ≡ stop r left))
      ⊎ ((msg : NetworkMessage) × (left : Bytes) × (receive_message b stream ≡ next msg left)
          × (length left < length stream))

  Received-cases : (stream : Bytes) → Received stream
  Received-cases stream = go _ refl (receive_message-Consumes stream)
    where
      go :
          (t : Step Bytes NetworkError NetworkMessage)
          → receive_message b stream ≡ t
          → Consumes 4 stream t
          → Received stream
      go (next msg left) e h = inr (msg, left, e, omega arith)
      go (stop r left) e h = inl (r, left, e)

  -- On every stream, whatever bytes it holds, the reader of a peer comes to an end: more turns than the
  -- stream has bytes are enough.
  pub peer_reader_returns :
      (stream : Bytes) (room fuel : ℕ)
      → length stream < fuel
      → is_some (peer_reader b fuel room stream) ≡ true
  unfolding peer_reader
  peer_reader_returns stream room zero enough = absurd (omega arith)
  peer_reader_returns stream zero (suc fuel) enough = elim (Received-cases stream) [
    | inl (r, left, e) ↦ ap is_some (read-stop b fuel 0 stream left r e)
    | inr (msg, left, e, shorter) ↦ ap is_some (read-full b fuel stream left msg e)
  ]
  peer_reader_returns stream (suc room) (suc fuel) enough = elim (Received-cases stream) [
    | inl (r, left, e) ↦ ap is_some (read-stop b fuel (suc room) stream left r e)
    | inr (msg, left, e, shorter) ↦
        ap is_some (read-next b fuel room stream left msg e)
        ∙ forward-is_some msg _ (peer_reader_returns left room fuel (omega arith))
  ]
