-- ===== src/Host/Loop.antt =====
-- The engine inside the loops of src/node.rs and src/main.rs.
use mathlib.Core.List.{reverse}
use p2p_pbft.Message.{NodeId, pong}
use p2p_pbft.Network.Peers.{send_to_peer}
use p2p_pbft.Base.{
  ℕ, List, [], ◌∷◌, ◌++◌, ap, subst, ◌≡◌, ◌≢◌, refl, sym, ◌∙◌, Option, none, some, get_elem?,
}
use p2p_pbft.Base.Flow.{Step, ok, err, panic, next, stop, flow, after, outcome}
use p2p_pbft.Base.Flow.Runs.{seq-next}
use p2p_pbft.Pbft.Process.{Input, process_input, process_all}
use p2p_pbft.Pbft.Invariant.{Inv}
use p2p_pbft.Pbft.Safety.{process_all-Inv}
use p2p_pbft.External.{External}
use p2p_pbft.Pbft.Config.{PbftError}
use p2p_pbft.Pbft.State.{PbftConsensus, Engine, OutgoingMessage}
use p2p_pbft.Host.{Host, Loop, dispatch, dispatch_one, logged, send_pong, run_loop}

-- What an engine gets in a loop over `es`.
abbrev pub inputs_of : {E : Type 0} → (E → List (ℕ × Input)) → List E → List (ℕ × Input)
inputs_of inputs [] = []
inputs_of inputs (e ∷ es) = inputs e ++ inputs_of inputs es

abbrev pub All : {E : Type 0} → (E → Type 0) → List E → Type 0
All Q [] = Unit {0}
All Q (e ∷ es) = Q e × All Q es

module _ (x : External) where
  -- A turn of a loop goes on, and leaves the engine `w`.
  pub record Turns (w : PbftConsensus x) (t : Step (Host x) PbftError (Unit {0})) : Type 0 where
    pub host : Host x
    pub goes_on : t ≡ next tt host
    pub engine : host.consensus ≡ w

  logged_step :
      (h : Host x) (r : Step (PbftConsensus x) PbftError (Unit {0}))
      → outcome r ≢ panic
      → Turns (after r) (
          let s : Step (Host x) PbftError (Unit {0}) = elim r [
            | next a w ↦ next tt (record h { consensus = w })
            | stop ok w ↦ next tt (record h { consensus = w })
            | stop (err e) w ↦ next tt (record h { consensus = w })
            | stop panic w ↦ stop panic (record h { consensus = w })
          ] in
          s)
  logged_step h (next a w) no_panic = record {
    host = record h { consensus = w };
    goes_on = refl;
    engine = refl;
  }
  logged_step h (stop ok w) no_panic = record {
    host = record h { consensus = w };
    goes_on = refl;
    engine = refl;
  }
  logged_step h (stop (err e) w) no_panic = record {
    host = record h { consensus = w };
    goes_on = refl;
    engine = refl;
  }
  logged_step h (stop panic w) no_panic = absurd (no_panic refl)

  pub logged-Turns :
      (m : Engine x (Unit {0})) (h : Host x)
      → outcome (m h.consensus) ≢ panic
      → Turns (after (m h.consensus)) (logged x m h)
  unfolding logged
  logged-Turns m h no_panic = logged_step h (m h.consensus) no_panic

  dispatched_one :
      (o : Option OutgoingMessage) (h : Host x) → (dispatch_one x o h).consensus ≡ h.consensus
  unfolding dispatch_one
  dispatched_one none h = refl
  dispatched_one (some m) h = refl

  pub dispatch-Turns : (h : Host x) → Turns h.consensus (dispatch x h)
  unfolding flow dispatch
  dispatch-Turns h = record {
    host = dispatch_one x (get_elem? (reverse h.consensus.outgoing) h.dispatched) h;
    goes_on = refl;
    engine = dispatched_one _ h;
  }

  pub send_pong-Turns :
      (peer_id node_id : NodeId) (timestamp : ℕ) (h : Host x)
      → Turns h.consensus (send_pong x peer_id node_id timestamp h)
  unfolding flow send_pong
  send_pong-Turns peer_id node_id timestamp h = record {
    host = record h { network = after (send_to_peer peer_id (pong node_id timestamp) h.network) };
    goes_on = refl;
    engine = refl;
  }

  pub nothing-Turns : (h : Host x) → Turns h.consensus (next tt h)
  nothing-Turns h = record { host = h; goes_on = refl; engine = refl }

  pub process_all-append :
      (is bs : List (ℕ × Input)) (w : PbftConsensus x)
      → process_all x (is ++ bs) w ≡ process_all x bs (process_all x is w)
  unfolding process_all
  process_all-append [] bs w = refl
  process_all-append ((now, i) ∷ is) bs w =
      process_all-append is bs (after (process_input x now i w))

  module _ {E : Type 0} (turn : E → Loop x) (inputs : E → List (ℕ × Input)) where
    -- A loop each of whose turns gives the engine its inputs, and goes on.
    pub run_loop-Refines :
        (Q : E → Type 0)
        → ((e : E) (h : Host x)
            → Q e
            → Inv x h.consensus
            → Turns (process_all x (inputs e) h.consensus) (turn e h))
        → (es : List E) (h : Host x) → All Q es
        → Inv x h.consensus
        → (outcome (run_loop x turn es h) ≡ ok)
          × ((after (run_loop x turn es h)).consensus
              ≡ process_all x (inputs_of inputs es) h.consensus)
    unfolding flow run_loop process_all
    run_loop-Refines Q turns [] h q v = (refl, refl)
    run_loop-Refines Q turns (e ∷ es) h (q, qs) v =
        let t = turns e h q v in
        let v' : Inv x t.host.consensus =
          subst (Inv x) (sym t.engine) (process_all-Inv x (inputs e) h.consensus v) in
        let (ends, engine) = run_loop-Refines Q turns es t.host qs v' in
        let step = seq-next (turn e) (run_loop x turn es) h t.host t.goes_on in
        (
          ap outcome step ∙ ends,
          ap (λ (r : Step (Host x) PbftError (Unit {0})). (after r).consensus) step
              ∙ (engine
                  ∙ (ap (process_all x (inputs_of inputs es)) t.engine
                      ∙ sym (process_all-append (inputs e) (inputs_of inputs es) h.consensus))),
        )
