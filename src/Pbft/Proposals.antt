-- ===== src/Pbft/Proposals.antt =====
-- src/pbft.rs: the sequence numbers that a primary gives to requests, and which code leaves them alone.
pub mod Once
use mathlib.Core.HLevel.{⊥_prop}
use mathlib.Core.Logic.Or
use mathlib.Core.List.{Nodup, Nodup-nil, Nodup-cons, Mem, mem-cons, not-mem-nil}
use p2p_pbft.Base.{
  ℕ, zero, suc, ◌+◌, ◌^◌, ◌≤◌, ◌<◌, ◌≡◌, refl, ap, sym, subst, inl, inr, List, [], ◌∷◌, Option,
  none, some, length, arith, Bool, true, false, Bool-cases, leb, same, wrap64, bytes_discrete,
}
use p2p_pbft.Base.Map.{contains}
use p2p_pbft.Base.Flow.{Step, next, stop, flow, after, call, branch, ◌>>◌, ◌>>=◌}
use p2p_pbft.Base.Flow.Ends.{Ends, bind-Ends, Ends-after, after-Ends}
use p2p_pbft.Base.Flow.Stays.{
  Stays, Stays-bind, Stays-call, Stays-gets, Stays-unwrap, Stays-pure, stays_rules,
}
use p2p_pbft.External.{External}
use p2p_pbft.Message.{
  NodeId, Request, PrePrepare, ConsensusMessage, Prepare, Commit, ViewChange, NewView, Checkpoint,
  consensus, Hash, request, pre_prepare, prepare, commit, reply, view_change, new_view, checkpoint,
  request_digest,
}
use p2p_pbft.Crypto.{KeyPair}
use p2p_pbft.Pbft.Config.{PbftConfig, PbftError}
use p2p_pbft.Pbft.State.{
  OutgoingMessage, broadcast, PbftConsensus, Engine, broadcast_consensus, send, send_to, state_new,
  consensus_new, put_instance,
}
use p2p_pbft.Pbft.Advance.{
  make_checkpoint, try_checkpoint, commit_instance, execute, try_advance_to_committed, make_commit,
  try_advance_to_prepared,
}
use p2p_pbft.Pbft.Normal.{
  propose, lead, handle_request, accept_pre_prepare, handle_pre_prepare, accept_prepare,
  handle_prepare, accept_commit, handle_commit,
}
use p2p_pbft.Pbft.Maintenance.{
  stabilize, handle_checkpoint, lead_new_view, collect_view_change, announce, handle_view_change,
  handle_new_view, make_view_change, start_view_change, check_timeout,
}
use p2p_pbft.Pbft.Histories.{Maintained}
use p2p_pbft.Pbft.Quiet.{
  voices, accept_pre_prepare-Quiet, try_advance_to_prepared-Quiet, handle_prepare-Quiet,
  handle_commit-Quiet, handle_checkpoint-Quiet, maintained_quietly,
}
use p2p_pbft.Pbft.Process.{
  Input, received, submitted, timer, suspicion, process_message, process_input, process_all,
}

-- The sequence numbers of the pre-prepares among what was sent.
abbrev pub proposals : List OutgoingMessage → List ℕ
proposals [] = []
proposals (broadcast (consensus (pre_prepare pp)) ∷ out) = pp.sequence ∷ proposals out
proposals (_ ∷ out) = proposals out

pub proposals-voices : (out : List OutgoingMessage) → proposals (voices out) ≡ proposals out
proposals-voices [] = refl
proposals-voices (broadcast (consensus (pre_prepare pp)) ∷ out) =
    ap (λ l. pp.sequence ∷ l) (proposals-voices out)
proposals-voices (broadcast (consensus (prepare p)) ∷ out) = proposals-voices out
proposals-voices (_ ∷ out) = proposals-voices out

-- Each number is below `n` and below those before it.
abbrev pub Below : ℕ → List ℕ → Type 0
Below n [] = Unit {0}
Below n (k ∷ ks) = (k < n) × Below k ks

Below-mono : (m n : ℕ) (ks : List ℕ) → m ≤ n → Below m ks → Below n ks
Below-mono m n [] h b = tt
Below-mono m n (k ∷ ks) h (lt, b) = (omega arith, b)

not_mem-Below : (n k : ℕ) (ks : List ℕ) → Below n ks → n ≤ k → ¬ Mem k ks
not_mem-Below n k [] b h m = not-mem-nil m
not_mem-Below n k (j ∷ ks) (lt, b) h m =
    Or.elim ⊥_prop (mem-cons.0 m) (λ e. absurd (let same : k ≡ j = e in omega arith))
      (not_mem-Below j k ks b (omega arith))

pub Nodup-Below : (n : ℕ) (ks : List ℕ) → Below n ks → Nodup ks
Nodup-Below n [] b = Nodup-nil
Nodup-Below n (k ∷ ks) (lt, b) =
    Nodup-cons.1 (not_mem-Below k k ks b (omega arith), Nodup-Below k ks b)

-- The counter is at most `n` and no number that was proposed is above it.
abbrev pub Counted : (x : External) → ℕ → PbftConsensus x → Type 0
Counted x n w =
    (w.state.sequence ≤ n) × Below (suc w.state.sequence) (proposals (voices w.outgoing))

module _ (x : External) (n : ℕ) where
  abbrev CountedIn : PbftConsensus x → Type 0
  CountedIn w = (w.state.sequence ≤ n) × Below (suc w.state.sequence) (proposals w.outgoing)

  pub try_advance_to_prepared-Counted : (k : ℕ) → Stays (Counted x n) (try_advance_to_prepared x k)
  try_advance_to_prepared-Counted k = try_advance_to_prepared-Quiet x CountedIn k

  -- What `propose` gives: the next number, which is above all numbers before it.
  abbrev pub Numbered : PrePrepare × Prepare → PbftConsensus x → Type 0
  Numbered (pp, p) u =
      (u.state.sequence ≤ suc n)
      × (pp.sequence ≡ u.state.sequence)
      × Below u.state.sequence (proposals (voices u.outgoing))

  pub propose-Numbered :
      (now : ℕ) (r : Request) (w : PbftConsensus x)
      → suc n < 2 ^ 64
      → Counted x n w
      → Ends (Counted x (suc n)) Numbered (propose x now r w)
  unfolding flow propose put_instance
  propose-Numbered now r w small (most, below) =
      elim (Bool-cases (contains bytes_discrete (request_digest x r) w.state.executed)) [
        | inl done ↦ rw (done) record { met = (omega arith, below) }
        | inr new ↦
            let counted : wrap64 (w.state.sequence + 1) ≡ suc w.state.sequence = omega arith in
            elim (Bool-cases (leb (wrap64 (w.state.sequence + 1)) w.state.high_watermark)) [
              | inl fits ↦
                  rw (new, fits)
                    record { met = (omega arith, refl, Below-mono _ _ _ (omega arith) below) }
              | inr too_high ↦
                  rw (new, too_high)
                    record { met = (omega arith, Below-mono _ _ _ (omega arith) below) }
            ]
      ]

  accept_pre_prepare-Counted :
      (now : ℕ) (pp : PrePrepare) → Stays (Counted x n) (accept_pre_prepare x now pp)
  accept_pre_prepare-Counted now pp = accept_pre_prepare-Quiet x CountedIn now pp

  pub handle_pre_prepare-Counted :
      (now : ℕ) (pp : PrePrepare) → Stays (Counted x n) (handle_pre_prepare x now pp)
  unfolding handle_pre_prepare
  handle_pre_prepare-Counted now pp =
      search (stays_rules, accept_pre_prepare-Counted, try_advance_to_prepared-Counted) depth 30

  pub handle_prepare-Counted :
      (now : ℕ) (p : Prepare) → Stays (Counted x n) (handle_prepare x now p)
  handle_prepare-Counted now p = handle_prepare-Quiet x CountedIn now p

  pub handle_commit-Counted : (now : ℕ) (c : Commit) → Stays (Counted x n) (handle_commit x now c)
  handle_commit-Counted now c = handle_commit-Quiet x CountedIn now c

  pub handle_checkpoint-Counted : (c : Checkpoint) → Stays (Counted x n) (handle_checkpoint x c)
  handle_checkpoint-Counted c = handle_checkpoint-Quiet x CountedIn c

  pub maintained-Counted : Maintained x (Counted x n)
  maintained-Counted = maintained_quietly x CountedIn
