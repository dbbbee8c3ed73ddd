-- ===== src/Pbft/Histories.antt =====
-- src/pbft.rs: a condition that every handler keeps holds over every history.
use p2p_pbft.Base.{ℕ, List, [], ◌∷◌}
use p2p_pbft.Base.Flow.{after}
use p2p_pbft.Base.Flow.Stays.{Stays, Stays-pure}
use p2p_pbft.External.{External}
use p2p_pbft.Message.{
  Request, PrePrepare, Prepare, Commit, ViewChange, NewView, Checkpoint, request, pre_prepare,
  prepare, commit, reply, view_change, new_view, checkpoint,
}
use p2p_pbft.Pbft.State.{PbftConsensus}
use p2p_pbft.Pbft.Normal.{handle_request, handle_pre_prepare, handle_prepare, handle_commit}
use p2p_pbft.Pbft.Maintenance.{
  handle_checkpoint, handle_view_change, handle_new_view, start_view_change, check_timeout,
}
use p2p_pbft.Pbft.Process.{
  Input, received, submitted, timer, suspicion, process_message, process_input, process_all,
}

-- What keeps `P`: the handlers that propose, vote or count votes, for the inputs that `Admitted` lets in,
-- and the maintenance of checkpoints and views.
pub record Handled (x : External) (P : PbftConsensus x → Type 0) (Admitted : Input → Type 0)
    : Type 0 where
  pub on_request : (now : ℕ) (r : Request) → Stays P (handle_request x now r)
  pub on_pre_prepare :
      (now : ℕ) (pp : PrePrepare)
      → Admitted (received (pre_prepare pp))
      → Stays P (handle_pre_prepare x now pp)
  pub on_prepare :
      (now : ℕ) (p : Prepare) → Admitted (received (prepare p)) → Stays P (handle_prepare x now p)
  pub on_commit : (now : ℕ) (c : Commit) → Stays P (handle_commit x now c)
  pub on_checkpoint :
      (c : Checkpoint) → Admitted (received (checkpoint c)) → Stays P (handle_checkpoint x c)

pub record Maintained (x : External) (P : PbftConsensus x → Type 0) : Type 0 where
  pub on_view_change : (vc : ViewChange) → Stays P (handle_view_change x vc)
  pub on_new_view : (now : ℕ) (nv : NewView) → Stays P (handle_new_view x now nv)
  pub on_suspicion : Stays P (start_view_change x)
  pub on_timer : (now : ℕ) → Stays P (check_timeout x now)

abbrev pub AllAdmitted : (Input → Type 0) → List (ℕ × Input) → Type 0
AllAdmitted Admitted [] = Unit {0}
AllAdmitted Admitted ((now, i) ∷ is) = Admitted i × AllAdmitted Admitted is

-- Every input is let in.
abbrev pub Any : Input → Type 0
Any i = Unit {0}

pub AllAdmitted-Any : (inputs : List (ℕ × Input)) → AllAdmitted Any inputs
AllAdmitted-Any [] = tt
AllAdmitted-Any ((now, i) ∷ is) = (tt, AllAdmitted-Any is)

module _ (x : External) {P : PbftConsensus x → Type 0} {Admitted : Input → Type 0}
    (h : Handled x P Admitted) (m : Maintained x P) where
  process_input-Stays : (now : ℕ) (i : Input) → Admitted i → Stays P (process_input x now i)
  unfolding process_input process_message
  process_input-Stays now (received (request r)) a = h.on_request now r
  process_input-Stays now (received (pre_prepare pp)) a = h.on_pre_prepare now pp a
  process_input-Stays now (received (prepare p)) a = h.on_prepare now p a
  process_input-Stays now (received (commit c)) a = h.on_commit now c
  process_input-Stays now (received (reply r)) a = Stays-pure _ tt
  process_input-Stays now (received (view_change vc)) a = m.on_view_change vc
  process_input-Stays now (received (new_view nv)) a = m.on_new_view now nv
  process_input-Stays now (received (checkpoint c)) a = h.on_checkpoint c a
  process_input-Stays now (submitted r) a = h.on_request now r
  process_input-Stays now timer a = m.on_timer now
  process_input-Stays now suspicion a = m.on_suspicion

  pub process_all-Stays :
      (inputs : List (ℕ × Input)) (w : PbftConsensus x)
      → AllAdmitted Admitted inputs
      → P w
      → P (process_all x inputs w)
  unfolding process_all
  process_all-Stays [] w a p = p
  process_all-Stays ((now, i) ∷ is) w (a, rest) p =
      process_all-Stays is (after (process_input x now i w)) rest
        ((process_input-Stays now i a).at w p)
