-- ===== src/Main/Terminal/Started.antt =====
-- src/main.rs: the task of the command line beside the engine that `start_node` makes.
use p2p_pbft.Base.{
  ℕ, ◌<◌, ◌≡◌, ◌≢◌, refl, sym, subst, List, [], ◌∷◌, ◌++◌, Bool, true, false, Option, none, some,
  arith, length, if◌then◌else◌, Bytes,
}
use p2p_pbft.Base.Flow.{panic, outcome, after}
use p2p_pbft.External.{External}
use p2p_pbft.Message.{NodeId}
use p2p_pbft.Crypto.{KeyPair, public_key_hex}
use p2p_pbft.Network.Connect.{slice_panics}
use p2p_pbft.Pbft.State.{PbftState, PbftConsensus, state_new, consensus_new}
use p2p_pbft.Pbft.Process.{Input, process_all}
use p2p_pbft.Pbft.Views.{process_all-Grows}
use p2p_pbft.Main.{start_engine, replicas_of, listed, listing_panics}
use p2p_pbft.Main.Replicas.{length-replicas_of}
use p2p_pbft.Main.Cli.{Text}
use p2p_pbft.Main.Terminal.{Terminal, cli_loop}
use p2p_pbft.Main.Terminal.Prints.{Showable}
use p2p_pbft.Main.Terminal.Typed.{AllShowable, asked_by, cli_loop-Requests}

module _ (x : External) (w : PbftConsensus x) where
  -- Each line comes after a history of the engine.
  abbrev pub lines_at : List (ℕ × List (ℕ × Input) × Text) → List (ℕ × PbftState x × Text)
  lines_at [] = []
  lines_at ((millis, inputs, line) ∷ typed) =
      (millis, (process_all x inputs w).state, line) ∷ lines_at typed

  later-Showable :
      (inputs : List (ℕ × Input)) → Showable x w.state → Showable x (process_all x inputs w).state
  later-Showable inputs h =
      let (_, _, _, same_replicas, same_id) = process_all-Grows x inputs w in
      record {
        own = subst (λ id. slice_panics id ≡ false) (sym same_id) h.own;
        has_replicas = subst (λ (l : List NodeId). 0 < length l) (sym same_replicas) h.has_replicas;
        others = subst (λ l. listing_panics x l ≡ false) (sym same_replicas) h.others;
      }

  lines_at-AllShowable :
      (typed : List (ℕ × List (ℕ × Input) × Text))
      → Showable x w.state
      → AllShowable x (lines_at typed)
  lines_at-AllShowable [] h = tt
  lines_at-AllShowable ((millis, inputs, line) ∷ typed) h =
      (later-Showable inputs h, lines_at-AllShowable typed h)

module _ (x : External) where
  engine_if :
      (index : Option ℕ) (n : ℕ) (id : NodeId) (b : Bool) (u w : PbftConsensus x)
      → (if b then none else some u) ≡ some w
      → (b ≡ false) × (u ≡ w)
  engine_if index n id true u w h = absurd (cc)
  engine_if index n id false u w h = (refl, cc)

  listed_fine :
      (index : Option ℕ) (n : ℕ) (id : NodeId)
      → slice_panics id ≡ false
      → listed x index (replicas_of x index n id) ≡ false
      → listing_panics x (replicas_of x index n id) ≡ false
  unfolding replicas_of
  listed_fine none n id own h = ground arith
  listed_fine (some index) n id own h = h

  started-Showable :
      (now : ℕ) (keypair : KeyPair x) (index : Option ℕ) (n : ℕ) (w : PbftConsensus x)
      → start_engine x now keypair index n ≡ some w
      → 0 < n
      → slice_panics (public_key_hex x keypair) ≡ false
      → Showable x w.state
  unfolding start_engine consensus_new state_new
  started-Showable now keypair index n w e pos own =
      let id = public_key_hex x keypair in
      let replicas = replicas_of x index n id in
      let (fine, made) = engine_if index n id (listed x index replicas) _ w e in
      subst (λ (v : PbftConsensus x). Showable x v.state) made
        (record {
          own = own;
          has_replicas = length-replicas_of x index n id pos;
          others = listed_fine index n id own fine;
        })

  -- Beside the engine of a node that is started for at least one node, whose id can be sliced, whatever
  -- lines are typed and after whatever history of the engine each of them comes, the task of the command
  -- line never panics, and while the main loop receives, what it sends is the requests of the submit
  -- lines before the first line that quits, in order, and nothing else.
  pub started_cli-Requests :
      (debug_str : Text → Bytes) (send_error : Bytes) (now : ℕ) (keypair : KeyPair x)
      (index : Option ℕ) (n : ℕ) (w : PbftConsensus x) (typed : List (ℕ × List (ℕ × Input) × Text))
      (t : Terminal)
      → start_engine x now keypair index n ≡ some w
      → 0 < n
      → slice_panics (public_key_hex x keypair) ≡ false
      → t.receiving ≡ true
      → let id = public_key_hex x keypair in
        let u = cli_loop x debug_str send_error id (lines_at x w typed) t in
        (outcome u ≢ panic) × ((after u).sent ≡ t.sent ++ asked_by id (lines_at x w typed))
  started_cli-Requests debug_str send_error now keypair index n w typed t e pos own receives =
      cli_loop-Requests debug_str send_error x (public_key_hex x keypair) (lines_at x w typed) t
        (lines_at-AllShowable x w typed (started-Showable now keypair index n w e pos own)) receives
