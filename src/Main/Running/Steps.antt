-- ===== src/Main/Running/Steps.antt =====
-- src/main.rs: what one event does to a node in its main loop.
use mathlib.Core.List.{append-nil}
use p2p_pbft.Base.{
  ℕ, suc, ◌≤◌, ◌≡◌, refl, sym, ap, ◌∙◌, subst, List, [], ◌∷◌, ◌++◌, false, Option, none, some,
  arith, length, length-append, get_elem?, take,
}
use p2p_pbft.Base.Flow.{Step, next, stop, after}
use p2p_pbft.External.{External}
use p2p_pbft.Message.{
  NodeId, NetworkMessage, Request, consensus, ping, pong, handshake, handshake_ack,
}
use p2p_pbft.Network.Frame.{Bincode}
use p2p_pbft.Network.Connect.{slice_panics}
use p2p_pbft.Network.Channel.{came, network_step-Since}
use p2p_pbft.Network.Table.{network_step}
use p2p_pbft.Pbft.Config.{PbftError}
use p2p_pbft.Pbft.Process.{process_all}
use p2p_pbft.Pbft.Invariant.{Inv}
use p2p_pbft.Host.{Host, Loop}
use p2p_pbft.Host.Loop.{inputs_of}
use p2p_pbft.Main.{MainEvent, submitted, arrived, outgoing_turn, main_turn}
use p2p_pbft.Main.Engine.{Loggable, main_input, main_turn-Turns}
use p2p_pbft.Main.Running.{
  Running, Happening, requested, receives, sends, network, on_host, receive_next, running_turn,
}
use p2p_pbft.Main.Running.Channel.{
  take_next, take_front, in_range, came-main_turn, arrived_of, submitted_of, requests_of,
}

abbrev pub channel : {x : External} → Running x → List (NodeId × NetworkMessage)
channel r = came r.host.network

module _ (b : Bincode) (x : External) (node_id : NodeId) where
  -- The node has gone from one state to another, on these events of its loop.
  pub record Went (r u : Running x) (requests : List Request) : Type 0 where
    pub events : List MainEvent
    pub engine : u.host.consensus ≡ process_all x (inputs_of main_input events) r.host.consensus
    pub in_order : take u.read (channel u) ≡ take r.read (channel r) ++ arrived_of events
    pub asked : submitted_of events ≡ requests
    pub fits : u.read ≤ length (channel u)

  pub record Stepped (r : Running x) (t : Step (Running x) PbftError (Unit {0}))
      (requests : List Request) : Type 0 where
    pub left : Running x
    pub goes_on : t ≡ next tt left
    pub went : Went r left requests

  on_host_next :
      (m : Loop x) (r : Running x) (h : Host x)
      → m r.host ≡ next tt h
      → on_host b x node_id m r ≡ next tt (record r { host = h })
  unfolding on_host
  on_host_next m r h e =
      ap
        (λ t.
          let s : Step (Running x) PbftError (Unit {0}) = elim t [
            | next a g ↦ next a (record r { host = g })
            | stop o g ↦ stop o (record r { host = g })
          ] in
          s)
        e

  -- One event of the loop.
  loop_turn :
      (e : MainEvent) (r : Running x) (k : ℕ)
      → Loggable e
      → Inv x r.host.consensus
      → k ≤ length (channel r)
      → take k (channel r) ≡ take r.read (channel r) ++ arrived_of (e ∷ [])
      → Stepped r
          (on_host b x node_id (main_turn x node_id e) (record r { read = k }))
          (submitted_of (e ∷ []))
  loop_turn e r k fine v fits in_order =
      let t = main_turn-Turns x node_id e r.host fine v in
      let same_channel : came t.host.network ≡ channel r =
        sym (ap (λ (s : Step (Host x) PbftError (Unit {0})). came (after s).network) t.goes_on)
        ∙ came-main_turn x node_id e r.host in
      record {
        left = record { host = t.host; read = k };
        goes_on = on_host_next (main_turn x node_id e) (record r { read = k }) t.host t.goes_on;
        went = record {
          events = e ∷ [];
          engine =
              t.engine
              ∙ ap (λ l. process_all x l r.host.consensus) (sym (append-nil (main_input e)));
          in_order = ap (take k) same_channel ∙ in_order;
          asked = refl;
          fits =
              subst (λ (l : List (NodeId × NetworkMessage)). k ≤ length l) (sym same_channel) fits;
        };
      }

  loggable :
      (now : ℕ) (peer_id : NodeId) (msg : NetworkMessage)
      → slice_panics peer_id ≡ false
      → Loggable (arrived now peer_id msg)
  loggable now peer_id (consensus m) fine = fine
  loggable now peer_id (ping _ _) fine = tt
  loggable now peer_id (pong _ _) fine = tt
  loggable now peer_id (handshake _ _) fine = tt
  loggable now peer_id (handshake_ack _ _) fine = tt

  receive_turn :
      (now : ℕ) (r : Running x) (o : Option (NodeId × NetworkMessage))
      → get_elem? (channel r) r.read ≡ o
      → ((m : NodeId × NetworkMessage) → o ≡ some m → slice_panics m.0 ≡ false)
      → Inv x r.host.consensus
      → r.read ≤ length (channel r)
      → Stepped r (receive_next b x node_id now o r) []
  unfolding receive_next process_all
  receive_turn now r none found fine v fits = record {
    left = r;
    goes_on = refl;
    went = record {
      events = [];
      engine = refl;
      in_order = sym (append-nil (take r.read (channel r)));
      asked = refl;
      fits = fits;
    };
  }
  receive_turn now r (some (peer_id, msg)) found fine v fits =
      loop_turn (arrived now peer_id msg) r (suc r.read) (loggable now peer_id msg (fine _ refl)) v
        (in_range _ _ _ found) (take_next _ _ _ found)

  -- One event of the node.
  pub happening_turn :
      (e : Happening) (r : Running x)
      → ((m : NodeId × NetworkMessage)
          → get_elem? (channel r) r.read ≡ some m
          → slice_panics m.0 ≡ false)
      → Inv x r.host.consensus
      → r.read ≤ length (channel r)
      → Stepped r (running_turn b x node_id e r) (requests_of (e ∷ []))
  unfolding running_turn process_all
  happening_turn (requested now request) r fine v fits =
      loop_turn (submitted now request) r r.read tt v fits
        (sym (append-nil (take r.read (channel r))))
  happening_turn (receives now) r fine v fits = receive_turn now r _ refl fine v fits
  happening_turn sends r fine v fits =
      loop_turn outgoing_turn r r.read tt v fits (sym (append-nil (take r.read (channel r))))
  happening_turn (network e) r fine v fits =
      let since =
        network_step-Since (channel r) b e r.host.network
          (record { more = []; in_front = sym (append-nil (channel r)) }) in
      let now_in : channel
            (record r { host = record r.host { network = network_step b e r.host.network } })
          ≡ channel r ++ since.more =
        since.in_front in
      record {
        left = record r { host = record r.host { network = network_step b e r.host.network } };
        goes_on = refl;
        went = record {
          events = [];
          engine = refl;
          in_order =
              ap (take r.read) now_in
              ∙ (take_front (channel r) since.more r.read fits
                  ∙ sym (append-nil (take r.read (channel r))));
          asked = refl;
          fits =
              subst (λ (l : List (NodeId × NetworkMessage)). r.read ≤ length l) (sym now_in)
                (omega (arith, fits, length-append (channel r) since.more));
        };
      }
