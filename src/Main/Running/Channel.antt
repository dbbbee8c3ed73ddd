-- ===== src/Main/Running/Channel.antt =====
-- src/main.rs: the channel of messages while the main loop runs.
use mathlib.Core.List.{append_assoc}
use p2p_pbft.Base.{
  ℕ, zero, suc, ◌≤◌, ◌<◌, ◌≡◌, refl, sym, ap, ◌∙◌, subst, List, [], ◌∷◌, ◌++◌, Bool, true, false,
  Option, none, some, arith, length, get_elem?, take,
}
use p2p_pbft.Base.Flow.{Step, ok, err, panic, next, stop, ◌>>◌, panic_if, after, flow}
use p2p_pbft.Base.Flow.Stays.{Stays, stays_rules}
use p2p_pbft.External.{External}
use p2p_pbft.Message.{
  NodeId, NetworkMessage, Request, consensus, ping, pong, handshake, handshake_ack,
}
use p2p_pbft.Network.Peers.{Network, send_to_peer, broadcast}
use p2p_pbft.Network.Connect.{slice_panics}
use p2p_pbft.Network.Channel.{came}
use p2p_pbft.Pbft.Config.{PbftError}
use p2p_pbft.Pbft.State.{PbftConsensus, OutgoingMessage, Engine, send_to}
use p2p_pbft.Pbft.State
use p2p_pbft.Pbft.Process.{Input}
use p2p_pbft.Host.{Host, Loop, send_outgoing, dispatch, dispatch_one, logged, send_pong}
use p2p_pbft.Host.Loop.{inputs_of}
use p2p_pbft.Main.{MainEvent, submitted, arrived, outgoing_turn, main_message, main_turn}
use p2p_pbft.Main.Running.{Happening, requested}

pub take_next :
    {A : Type 0} (l : List A) (k : ℕ) (a : A)
    → get_elem? l k ≡ some a
    → take (suc k) l ≡ take k l ++ a ∷ []
take_next [] k a h = absurd (cc)
take_next (c ∷ l) zero a h = let same_head : c ≡ a = cc in ap (λ d. d ∷ []) same_head
take_next (c ∷ l) (suc k) a h = ap (λ m. c ∷ m) (take_next l k a h)

pub take_front :
    {A : Type 0} (l more : List A) (k : ℕ) → k ≤ length l → take k (l ++ more) ≡ take k l
take_front l more zero h = refl
take_front [] more (suc k) h = absurd (omega arith)
take_front (c ∷ l) more (suc k) h = ap (λ m. c ∷ m) (take_front l more k (omega arith))

pub in_range : {A : Type 0} (l : List A) (k : ℕ) (a : A) → get_elem? l k ≡ some a → k < length l
in_range [] k a h = absurd (cc)
in_range (c ∷ l) zero a h = omega arith
in_range (c ∷ l) (suc k) a h = omega (arith, in_range l k a h)

-- What has come in stays while messages are sent.
came-send_to_peer :
    (id : NodeId) (msg : NetworkMessage) (n : Network)
    → came (after (send_to_peer id msg n)) ≡ came n
unfolding send_to_peer
came-send_to_peer id msg n =
    let kept : Stays (λ m. came m ≡ came n) (send_to_peer id msg) = search stays_rules depth 20 in
    kept.at n refl

came-send_outgoing : (m : OutgoingMessage) (n : Network) → came (send_outgoing m n) ≡ came n
unfolding send_outgoing broadcast
came-send_outgoing (State.broadcast msg) n = refl
came-send_outgoing (send_to target msg) n = came-send_to_peer target msg n

module _ (x : External) where
  came-dispatch_one :
      (o : Option OutgoingMessage) (h : Host x) → came (dispatch_one x o h).network ≡ came h.network
  unfolding dispatch_one
  came-dispatch_one none h = refl
  came-dispatch_one (some m) h = came-send_outgoing m h.network

  came_logged_step :
      (h : Host x) (r : Step (PbftConsensus x) PbftError (Unit {0}))
      → let s : Step (Host x) PbftError (Unit {0}) = elim r [
        | next a w ↦ next tt (record h { consensus = w })
        | stop ok w ↦ next tt (record h { consensus = w })
        | stop (err e) w ↦ next tt (record h { consensus = w })
        | stop panic w ↦ stop panic (record h { consensus = w })
      ] in
        came (after s).network ≡ came h.network
  came_logged_step h (next a w) = refl
  came_logged_step h (stop ok w) = refl
  came_logged_step h (stop (err e) w) = refl
  came_logged_step h (stop panic w) = refl

  came-logged :
      (m : Engine x (Unit {0})) (h : Host x) → came (after (logged x m h)).network ≡ came h.network
  unfolding logged
  came-logged m h = came_logged_step h (m h.consensus)

  guarded_came :
      (p : Bool) (m : Loop x) (h : Host x)
      → came (after (m h)).network ≡ came h.network
      → came (after ((panic_if p >> m) h)).network ≡ came h.network
  unfolding flow
  guarded_came true m h e = refl
  guarded_came false m h e = e

  pub came-main_turn :
      (node_id : NodeId) (e : MainEvent) (h : Host x)
      → came (after (main_turn x node_id e h)).network ≡ came h.network
  unfolding flow main_turn main_message send_pong dispatch
  came-main_turn node_id (submitted now r) h = came-logged _ h
  came-main_turn node_id (arrived now peer_id (consensus m)) h =
      guarded_came (slice_panics peer_id) _ h (came-logged _ h)
  came-main_turn node_id (arrived now peer_id (ping _ timestamp)) h =
      came-send_to_peer peer_id (pong node_id timestamp) h.network
  came-main_turn node_id (arrived now peer_id (pong _ _)) h = refl
  came-main_turn node_id (arrived now peer_id (handshake _ _)) h = refl
  came-main_turn node_id (arrived now peer_id (handshake_ack _ _)) h = refl
  came-main_turn node_id outgoing_turn h = came-dispatch_one _ h

abbrev pub arrived_of : List MainEvent → List (NodeId × NetworkMessage)
arrived_of [] = []
arrived_of (arrived now peer_id msg ∷ es) = (peer_id, msg) ∷ arrived_of es
arrived_of (_ ∷ es) = arrived_of es

abbrev pub submitted_of : List MainEvent → List Request
submitted_of [] = []
submitted_of (submitted now r ∷ es) = r ∷ submitted_of es
submitted_of (_ ∷ es) = submitted_of es

abbrev pub requests_of : List Happening → List Request
requests_of [] = []
requests_of (requested now r ∷ hs) = r ∷ requests_of hs
requests_of (_ ∷ hs) = requests_of hs

-- The ids under which the messages have come can be sliced.
abbrev pub AllSliceable : List (NodeId × NetworkMessage) → Type 0
AllSliceable [] = Unit {0}
AllSliceable (m ∷ l) = (slice_panics m.0 ≡ false) × AllSliceable l

pub sliceable :
    (l more : List (NodeId × NetworkMessage)) (k : ℕ) (m : NodeId × NetworkMessage)
    → AllSliceable (l ++ more)
    → get_elem? l k ≡ some m
    → slice_panics m.0 ≡ false
sliceable [] more k m all h = absurd (cc)
sliceable (c ∷ l) more zero m (fine, all) h =
    let same_message : c ≡ m = cc in
    subst (λ (d : NodeId × NetworkMessage). slice_panics d.0 ≡ false) same_message fine
sliceable (c ∷ l) more (suc k) m (fine, all) h = sliceable l more k m all h

pub arrived_of-append :
    (es fs : List MainEvent) → arrived_of (es ++ fs) ≡ arrived_of es ++ arrived_of fs
arrived_of-append [] fs = refl
arrived_of-append (arrived now peer_id msg ∷ es) fs =
    ap (λ l. (peer_id, msg) ∷ l) (arrived_of-append es fs)
arrived_of-append (_ ∷ es) fs = arrived_of-append es fs

pub submitted_of-append :
    (es fs : List MainEvent) → submitted_of (es ++ fs) ≡ submitted_of es ++ submitted_of fs
submitted_of-append [] fs = refl
submitted_of-append (submitted now r ∷ es) fs = ap (λ l. r ∷ l) (submitted_of-append es fs)
submitted_of-append (_ ∷ es) fs = submitted_of-append es fs

pub requests_of-cons :
    (h : Happening) (hs : List Happening)
    → requests_of (h ∷ hs) ≡ requests_of (h ∷ []) ++ requests_of hs
requests_of-cons (requested now r) hs = refl
requests_of-cons _ hs = refl

pub inputs_of-append :
    {E : Type 0} (f : E → List (ℕ × Input)) (es fs : List E)
    → inputs_of f (es ++ fs) ≡ inputs_of f es ++ inputs_of f fs
inputs_of-append f [] fs = refl
inputs_of-append f (e ∷ es) fs =
    ap (λ l. f e ++ l) (inputs_of-append f es fs)
    ∙ sym (append_assoc (f e) (inputs_of f es) (inputs_of f fs))
