-- ===== src/Main/Running/Order.antt =====
-- src/main.rs: the main loop takes the messages in the order in which the readers put them into the channel.
use mathlib.Core.List.{append-nil, append_assoc}
use mathlib.Core.Path.{ap₂}
use p2p_pbft.Base.{
  ℕ, suc, ◌≤◌, ◌≡◌, refl, sym, ap, ◌∙◌, subst, List, [], ◌∷◌, ◌++◌, false, Option, none, some,
  arith, length, get_elem?, take,
}
use p2p_pbft.Base.Flow.{Step, ok, next, stop, outcome, after, flow}
use p2p_pbft.Base.Flow.Runs.{seq-next}
use p2p_pbft.Base.Flow.Stays.{Stays, Stays-pure, Stays-seq}
use p2p_pbft.External.{External}
use p2p_pbft.Message.{NodeId, NetworkMessage, Request}
use p2p_pbft.Network.Frame.{Bincode}
use p2p_pbft.Network.Connect.{slice_panics}
use p2p_pbft.Network.Channel.{came, Since, network_step-Since}
use p2p_pbft.Pbft.Config.{PbftError}
use p2p_pbft.Pbft.Process.{process_all}
use p2p_pbft.Pbft.Invariant.{Inv}
use p2p_pbft.Pbft.Safety.{process_all-Inv}
use p2p_pbft.Host.{Host}
use p2p_pbft.Host.Loop.{inputs_of, process_all-append}
use p2p_pbft.Main.{MainEvent, submitted, arrived, outgoing_turn, main_turn}
use p2p_pbft.Main.Engine.{main_input}
use p2p_pbft.Main.Running.{
  Running, Happening, requested, receives, sends, network, on_host, receive_next, running_turn,
  running,
}
use p2p_pbft.Main.Running.Channel.{
  came-main_turn, arrived_of, submitted_of, requests_of, requests_of-cons, arrived_of-append,
  submitted_of-append, inputs_of-append, AllSliceable, sliceable,
}
use p2p_pbft.Main.Running.Steps.{channel, Went, Stepped, happening_turn}

module _ (b : Bincode) (x : External) (node_id : NodeId) where
  -- What has come in stays in front over a whole run.
  on_host_step_came :
      (r : Running x) (t : Step (Host x) PbftError (Unit {0}))
      → let s : Step (Running x) PbftError (Unit {0}) = elim t [
        | next a g ↦ next a (record r { host = g })
        | stop o g ↦ stop o (record r { host = g })
      ] in
        channel (after s) ≡ came (after t).network
  on_host_step_came r (next a g) = refl
  on_host_step_came r (stop o g) = refl

  on_host_came :
      (e : MainEvent) (r : Running x)
      → channel (after (on_host b x node_id (main_turn x node_id e) r)) ≡ channel r
  unfolding on_host
  on_host_came e r =
      on_host_step_came r (main_turn x node_id e r.host) ∙ came-main_turn x node_id e r.host

  came-receive_next :
      (now : ℕ) (o : Option (NodeId × NetworkMessage)) (r : Running x)
      → channel (after (receive_next b x node_id now o r)) ≡ channel r
  unfolding receive_next
  came-receive_next now none r = refl
  came-receive_next now (some (peer_id, msg)) r =
      on_host_came (arrived now peer_id msg) (record r { read = suc r.read })

  running_turn-Since :
      (before : List (NodeId × NetworkMessage)) (e : Happening)
      → Stays (λ r. Since before (channel r)) (running_turn b x node_id e)
  unfolding running_turn
  running_turn-Since before (requested now request) = record {
    at = λ r h. subst (Since before) (sym (on_host_came (submitted now request) r)) h;
  }
  running_turn-Since before (receives now) = record {
    at = λ r h. subst (Since before) (sym (came-receive_next now _ r)) h;
  }
  running_turn-Since before sends = record {
    at = λ r h. subst (Since before) (sym (on_host_came outgoing_turn r)) h;
  }
  running_turn-Since before (network e) = record {
    at = λ r h. network_step-Since before b e r.host.network h;
  }

  running-Since :
      (before : List (NodeId × NetworkMessage)) (es : List Happening)
      → Stays (λ r. Since before (channel r)) (running b x node_id es)
  unfolding running
  running-Since before [] = Stays-pure _ tt
  running-Since before (e ∷ es) =
      Stays-seq _ _ (running_turn-Since before e) (running-Since before es)

  -- One event after another.
  next_stretch :
      {r u v : Running x} {requests later : List Request}
      → Went b x node_id r u requests
      → Went b x node_id u v later
      → Went b x node_id r v (requests ++ later)
  next_stretch {r} first second = record {
    events = first.events ++ second.events;
    engine =
        second.engine
        ∙ (ap (process_all x (inputs_of main_input second.events)) first.engine
            ∙ (sym (
                  process_all-append x (inputs_of main_input first.events)
                    (inputs_of main_input second.events) r.host.consensus)
                ∙ ap (λ l. process_all x l r.host.consensus)
                    (sym (inputs_of-append main_input first.events second.events))));
    in_order =
        second.in_order
        ∙ (ap (λ l. l ++ arrived_of second.events) first.in_order
            ∙ (append_assoc (take r.read (channel r)) (arrived_of first.events)
                  (arrived_of second.events)
                ∙ ap (λ l. take r.read (channel r) ++ l)
                    (sym (arrived_of-append first.events second.events))));
    asked =
        submitted_of-append first.events second.events
        ∙ ap₂ (λ l k. l ++ k) first.asked second.asked;
    fits = second.fits;
  }

  runs :
      (es : List Happening) (r : Running x)
      → AllSliceable (channel (after (running b x node_id es r)))
      → Inv x r.host.consensus
      → r.read ≤ length (channel r)
      → Stepped b x node_id r (running b x node_id es r) (requests_of es)
  unfolding flow running process_all
  runs [] r fine v fits = record {
    left = r;
    goes_on = refl;
    went = record {
      events = [];
      engine = refl;
      in_order = sym (append-nil (take r.read (channel r)));
      asked = refl;
      fits = fits;
    };
  }
  runs (e ∷ es) r fine v fits =
      let since =
        (running-Since (channel r) (e ∷ es)).at r
          (record { more = []; in_front = sym (append-nil (channel r)) }) in
      let next_fine : (m : NodeId × NetworkMessage)
          → get_elem? (channel r) r.read ≡ some m
          → slice_panics m.0 ≡ false =
        λ m. sliceable (channel r) since.more r.read m (subst AllSliceable since.in_front fine) in
      let turn = happening_turn b x node_id e r next_fine v fits in
      let step =
        seq-next (running_turn b x node_id e) (running b x node_id es) r turn.left turn.goes_on in
      let kept : Inv x turn.left.host.consensus =
        subst (Inv x) (sym turn.went.engine)
          (process_all-Inv x (inputs_of main_input turn.went.events) r.host.consensus v) in
      let rest =
        runs es turn.left
          (subst (λ (t : Step (Running x) PbftError (Unit {0})). AllSliceable (channel (after t)))
            step fine)
          kept turn.went.fits in
      record {
        left = rest.left;
        goes_on = step ∙ rest.goes_on;
        went =
            subst (Went b x node_id r rest.left) (sym (requests_of-cons e es))
              (next_stretch turn.went rest.went);
      }

  -- From an engine that meets the invariant and an empty channel, if the ids under which messages come can
  -- be sliced, then whatever requests, connections, ends of readers and turns of the two tasks follow each
  -- other, no panic ends the main loop, and there is a list of events of the loop of which this holds:
  -- the engine is the one that gets its requests and consensus messages and nothing else, the messages
  -- in it are the first that the readers have put into the channel, in order, each once and none left
  -- out, and the requests in it are those of the command line, in order.
  pub running-InOrder :
      (es : List Happening) (h : Host x)
      → let t = running b x node_id es (record { host = h; read = 0 }) in
        AllSliceable (came (after t).host.network)
        → Inv x h.consensus
        → (outcome t ≡ ok)
          × ((events : List MainEvent) × ((after t).host.consensus
                ≡ process_all x (inputs_of main_input events) h.consensus)
              × (arrived_of events ≡ take (after t).read (came (after t).host.network))
              × (submitted_of events ≡ requests_of es))
  running-InOrder es h fine v =
      let r : Running x = record { host = h; read = 0 } in
      let all = runs es r fine v (omega arith) in
      subst
        (λ (t : Step (Running x) PbftError (Unit {0})).
          (outcome t ≡ ok)
          × ((events : List MainEvent) × ((after t).host.consensus
                ≡ process_all x (inputs_of main_input events) h.consensus)
              × (arrived_of events ≡ take (after t).read (came (after t).host.network))
              × (submitted_of events ≡ requests_of es)))
        (sym all.goes_on)
        (refl, (all.went.events, all.went.engine, sym all.went.in_order, all.went.asked))
