-- ===== src/Main/Started.antt =====
-- src/main.rs: the engine that `start_node` makes, and how it fares in the main loop.
use p2p_pbft.Base.{
  ◌%◌, ◌==◌, get_elem?, ℕ, ◌<◌, ◌≡◌, ◌≢◌, ◌⊎◌, inl, inr, refl, ap, sym, ◌∙◌, subst, List, [], ◌∷◌,
  Bool, true, false, Option, none, some, length, arith, same, bytes_discrete, if◌then◌else◌,
  Bool-cases,
}
use p2p_pbft.Base.Flow.{ok, err, stop, gets, unwrap, outcome, after}
use p2p_pbft.Base.Flow.Runs.{bind-next, bind-stop, guard-true, guard-false}
use p2p_pbft.External.{External}
use p2p_pbft.Message.{NodeId, PrePrepare}
use p2p_pbft.Crypto.{KeyPair, public_key_hex}
use p2p_pbft.Pbft.Config.{config_new, PbftError, invalid_view, not_primary}
use p2p_pbft.Pbft.State.{PbftConsensus, state_new, consensus_new, replica_for, primary}
use p2p_pbft.Pbft.Normal.{handle_pre_prepare, accept_pre_prepare}
use p2p_pbft.Pbft.Process.{Input, process_all}
use p2p_pbft.Pbft.Invariant.{Inv}
use p2p_pbft.Pbft.Safety.{fresh-Inv}
use p2p_pbft.Pbft.Views.{process_all-Grows}
use p2p_pbft.Host.{Host}
use p2p_pbft.Host.Loop.{All, inputs_of}
use p2p_pbft.Main.{MainEvent, start_engine, replicas_of, listed, main_loop}
use p2p_pbft.Main.Replicas.{length-replicas_of}
use p2p_pbft.Main.Engine.{Loggable, main_input, main_loop-Refines}

module _ (x : External) where
  -- The engine that is made is a new one.
  made : (b : Bool) (w u : PbftConsensus x) → (if b then none else some w) ≡ some u → w ≡ u
  made true w u h = absurd (cc)
  made false w u h = cc

  interval_pos : (n : ℕ) → 0 < (config_new n).checkpoint_interval
  unfolding config_new
  interval_pos n = omega arith

  start_engine-Inv :
      (now : ℕ) (keypair : KeyPair x) (index : Option ℕ) (n : ℕ) (w : PbftConsensus x)
      → start_engine x now keypair index n ≡ some w
      → 0 < n
      → Inv x w
  unfolding start_engine
  start_engine-Inv now keypair index n w e pos =
      let node_id = public_key_hex x keypair in
      let replicas = replicas_of x index n node_id in
      subst (Inv x) (made (listed x index replicas) _ w e) (
        fresh-Inv x now node_id keypair replicas (config_new n)
          (length-replicas_of x index n node_id pos) (interval_pos n))

  -- A node that is started for at least one node, and whose lists of replicas can be logged, runs its main
  -- loop to the end of its channels without a panic, if each consensus message comes from a peer whose
  -- id the log line can slice; what its engine does in it is what the engine does that gets the same
  -- requests and consensus messages and nothing else.
  pub started_node-Refines :
      (now : ℕ) (keypair : KeyPair x) (index : Option ℕ) (n : ℕ) (es : List MainEvent) (h : Host x)
      → start_engine x now keypair index n ≡ some h.consensus
      → 0 < n
      → All Loggable es
      → let node_id = public_key_hex x keypair in
        (outcome (main_loop x node_id es h) ≡ ok)
        × ((after (main_loop x node_id es h)).consensus
            ≡ process_all x (inputs_of main_input es) h.consensus)
  started_node-Refines now keypair index n es h e pos good =
      main_loop-Refines x (public_key_hex x keypair) es h good
        (start_engine-Inv now keypair index n h.consensus e pos)

  same-false : (a b : NodeId) → a ≢ b → same a b ≡ false
  same-false a b differ =
      elim (bytes_discrete a b) as (λ c. elim c [ yes _ ↦ true | no _ ↦ false ] ≡ false) [
        | yes p ↦ absurd (differ p)
        | no _ ↦ refl
      ]

  only_leader :
      (u : PbftConsensus x) (leader : NodeId)
      → u.state.replicas ≡ leader ∷ []
      → primary x u.state ≡ some leader
  unfolding primary replica_for
  only_leader u leader only =
      ap (λ l. get_elem? l (u.state.view % length l)) only
      ∙ (let first : u.state.view % 1 ≡ 0 = omega arith in ap (get_elem? (leader ∷ [])) first)

  -- An engine whose only replica is `leader`.
  alone_refuses :
      (now : ℕ) (pp : PrePrepare) (u : PbftConsensus x) (leader : NodeId)
      → u.state.replicas ≡ leader ∷ []
      → pp.primary_id ≢ leader
      → (accept_pre_prepare x now pp u ≡ stop (err invalid_view) u)
        ⊎ (accept_pre_prepare x now pp u ≡ stop (err not_primary) u)
  unfolding accept_pre_prepare gets unwrap
  alone_refuses now pp u leader only differ = elim (Bool-cases (pp.view == u.state.view)) [
    | inl in_view ↦ inr (
        bind-next _ _ u u u.state refl
        ∙ (guard-true _ _ _ u in_view
            ∙ (bind-next (unwrap (primary x u.state)) _ u u leader
                  (ap (λ o. unwrap o u) (only_leader u leader only))
                ∙ guard-false _ _ _ u (same-false pp.primary_id leader differ))))
    | inr other ↦ inl (bind-next _ _ u u u.state refl ∙ guard-false _ _ _ u other)
  ]

  refused :
      (now : ℕ) (pp : PrePrepare) (u : PbftConsensus x) (e : PbftError)
      → accept_pre_prepare x now pp u ≡ stop (err e) u
      → handle_pre_prepare x now pp u ≡ stop (err e) u
  unfolding handle_pre_prepare
  refused now pp u e h = bind-stop (accept_pre_prepare x now pp) _ u u (err e) h

  -- After any history, a node that is started without `--index` refuses every pre-prepare of another
  -- node, as of another view or not from the primary, and is unchanged by it.
  pub lone_node_refuses :
      (now later : ℕ) (keypair : KeyPair x) (n : ℕ) (w : PbftConsensus x)
      (inputs : List (ℕ × Input)) (pp : PrePrepare)
      → start_engine x now keypair none n ≡ some w
      → pp.primary_id ≢ public_key_hex x keypair
      → let u = process_all x inputs w in
        (handle_pre_prepare x later pp u ≡ stop (err invalid_view) u)
        ⊎ (handle_pre_prepare x later pp u ≡ stop (err not_primary) u)
  unfolding start_engine replicas_of consensus_new state_new
  lone_node_refuses now later keypair n w inputs pp e differ =
      let node_id = public_key_hex x keypair in
      let (_, _, _, same_replicas, _) = process_all-Grows x inputs w in
      let fresh = made false _ w e in
      let u = process_all x inputs w in
      let only = same_replicas ∙ ap (λ (v : PbftConsensus x). v.state.replicas) (sym fresh) in
      elim (alone_refuses later pp u node_id only differ) [
        | inl h ↦ inl (refused later pp u invalid_view h)
        | inr h ↦ inr (refused later pp u not_primary h)
      ]
