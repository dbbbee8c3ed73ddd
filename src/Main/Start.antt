-- ===== src/Main/Start.antt =====
-- src/main.rs: `start_node` as a whole, from the keys to the end of the main loop.
use p2p_pbft.Base.{ℕ, ◌<◌, ◌≡◌, refl, subst, List, [], ◌∷◌, Bool, true, Option, none, some, Bytes}
use p2p_pbft.Base.Flow.{ok, err, panic, Step, next, stop, pure, outcome, after}
use p2p_pbft.External.{External}
use p2p_pbft.Crypto.{KeyPair, public_key_hex}
use p2p_pbft.Network.{NetworkError}
use p2p_pbft.Network.Frame.{Bincode}
use p2p_pbft.Network.Peers.{Network, Networking, network_new, start_listener}
use p2p_pbft.Network.Connect.{connect_to_peer}
use p2p_pbft.Pbft.Config.{PbftError}
use p2p_pbft.Pbft.State.{PbftConsensus}
use p2p_pbft.Pbft.Process.{process_all}
use p2p_pbft.Host.{Host}
use p2p_pbft.Host.Loop.{All, inputs_of}
use p2p_pbft.Main.{SeedError, Keys, found, refused, MainEvent, start_keys, start_engine, main_loop}
use p2p_pbft.Main.Engine.{Loggable, main_input}
use p2p_pbft.Main.Started.{started_node-Refines}

-- How `start_node` ends: before its main loop by an error or a panic, or as the loop does.
pub data Started (x : External) : Type 0 where
  no_keys : SeedError → Started x
  not_bound panics : Started x
  ran : Step (Host x) PbftError (Unit {0}) → Started x

module _ (b : Bincode) (dial : Bytes → Option Bytes) where
  -- A connection that fails is logged.
  unfoldable pub connect_bootstrap : List Bytes → Networking (Unit {0})
  connect_bootstrap [] = pure tt
  connect_bootstrap (address ∷ addresses) =
      let rest = connect_bootstrap addresses in
      λ n. elim (connect_to_peer b dial address n) [
        | next _ m ↦ rest m
        | stop ok m ↦ rest m
        | stop (err e) m ↦ rest m
        | stop panic m ↦ stop panic m
      ]

  module _ (x : External) where
    run_node : KeyPair x → List MainEvent → Network → Option (PbftConsensus x) → Started x
    run_node keypair events n none = panics
    run_node keypair events n (some w) = ran (
        main_loop x (public_key_hex x keypair) events
          (record { consensus = w; network = record n { taken = true }; dispatched = 0 }))

    join_network :
        ℕ
        → KeyPair x
        → Option ℕ
        → ℕ
        → List MainEvent
        → Step Network NetworkError (Unit {0})
        → Started x
    join_network now keypair index num_nodes events (stop panic n) = panics
    join_network now keypair index num_nodes events (stop _ n) =
        run_node keypair events n (start_engine x now keypair index num_nodes)
    join_network now keypair index num_nodes events (next _ n) =
        run_node keypair events n (start_engine x now keypair index num_nodes)

    listening :
        ℕ
        → List Bytes
        → Option ℕ
        → ℕ
        → List MainEvent
        → KeyPair x
        → Step Network NetworkError (Unit {0})
        → Started x
    unfolding join_network
    listening now bootstrap index num_nodes events keypair (next _ n) =
        join_network now keypair index num_nodes events (connect_bootstrap bootstrap n)
    listening now bootstrap index num_nodes events keypair (stop _ n) = not_bound

    listen : ℕ → ℕ → List Bytes → Option ℕ → ℕ → List MainEvent → Bool → KeyPair x → Started x
    unfolding listening
    listen now port bootstrap index num_nodes events binds keypair =
        listening now bootstrap index num_nodes events keypair
          (start_listener binds (network_new (public_key_hex x keypair) port))

    with_keys : (KeyPair x → Started x) → Keys x → Started x
    with_keys go (found keypair) = go keypair
    with_keys go (refused e) = no_keys e

    -- `binds` says whether the port of the listener is free; `drawn` is the key that `generate` would draw.
    unfoldable pub start_node :
        Bool
        → ℕ
        → x.SigningKey
        → ℕ
        → Option Bytes
        → List Bytes
        → ℕ
        → Option ℕ
        → List MainEvent
        → Started x
    unfolding run_node join_network listening listen with_keys
    start_node binds now drawn port seed bootstrap num_nodes index events =
        with_keys (listen now port bootstrap index num_nodes events binds)
          (start_keys x drawn seed index)

    module _ (now port num_nodes : ℕ) (index : Option ℕ) (bootstrap : List Bytes)
        (events : List MainEvent) (some_nodes : 0 < num_nodes) (good : All Loggable events) where
      -- The loop ran to its end, on the engine of these keys.
      abbrev EngineRan : KeyPair x → Step (Host x) PbftError (Unit {0}) → Type 0
      EngineRan keypair t =
          (outcome t ≡ ok)
          × ((w : PbftConsensus x) × (start_engine x now keypair index num_nodes ≡ some w)
              × ((after t).consensus ≡ process_all x (inputs_of main_input events) w))

      run_node_lem :
          (keypair : KeyPair x) (n : Network) (o : Option (PbftConsensus x))
          (t : Step (Host x) PbftError (Unit {0}))
          → start_engine x now keypair index num_nodes ≡ o
          → run_node keypair events n o ≡ ran t
          → EngineRan keypair t
      unfolding run_node
      run_node_lem keypair n none t made h = absurd (cc)
      run_node_lem keypair n (some w) t made h =
          let host : Host x = record {
            consensus = w;
            network = record n { taken = true };
            dispatched = 0;
          } in
          let same_run : main_loop x (public_key_hex x keypair) events host ≡ t = cc in
          let (ends, same_engine) =
            started_node-Refines x now keypair index num_nodes events host made some_nodes good in
          subst (EngineRan keypair) same_run (ends, (w, made, same_engine))

      join_network_lem :
          (keypair : KeyPair x) (r : Step Network NetworkError (Unit {0}))
          (t : Step (Host x) PbftError (Unit {0}))
          → join_network now keypair index num_nodes events r ≡ ran t
          → EngineRan keypair t
      unfolding join_network run_node
      join_network_lem keypair (next _ n) t h = run_node_lem keypair n _ t refl h
      join_network_lem keypair (stop ok n) t h = run_node_lem keypair n _ t refl h
      join_network_lem keypair (stop (err e) n) t h = run_node_lem keypair n _ t refl h
      join_network_lem keypair (stop panic n) t h = absurd (cc)

      listening_lem :
          (keypair : KeyPair x) (r : Step Network NetworkError (Unit {0}))
          (t : Step (Host x) PbftError (Unit {0}))
          → listening now bootstrap index num_nodes events keypair r ≡ ran t
          → EngineRan keypair t
      unfolding listening
      listening_lem keypair (next _ n) t h = join_network_lem keypair _ t h
      listening_lem keypair (stop _ n) t h = absurd (cc)

      listen_lem :
          (binds : Bool) (keypair : KeyPair x) (t : Step (Host x) PbftError (Unit {0}))
          → listen now port bootstrap index num_nodes events binds keypair ≡ ran t
          → EngineRan keypair t
      unfolding listening listen
      listen_lem binds keypair t h =
          listening_lem keypair (start_listener binds (network_new (public_key_hex x keypair) port))
            t h

      with_keys_lem :
          (binds : Bool) (keys : Keys x) (t : Step (Host x) PbftError (Unit {0}))
          → with_keys (listen now port bootstrap index num_nodes events binds) keys ≡ ran t
          → (keypair : KeyPair x) × (keys ≡ found keypair) × EngineRan keypair t
      unfolding with_keys listen
      with_keys_lem binds (found keypair) t h = (keypair, refl, listen_lem binds keypair t h)
      with_keys_lem binds (refused e) t h = absurd (cc)

      -- For at least one node, if each consensus message comes from a peer whose id the log line can slice,
      -- the main loop of `start_node`, where it is reached at all, runs to the end of its channels
      -- without a panic, whatever the connections to the bootstrap peers brought; its engine is the one
      -- made from the keys of the options, after the same requests and consensus messages and nothing
      -- else.
      pub start_node-Refines :
          (binds : Bool) (drawn : x.SigningKey) (seed : Option Bytes)
          (t : Step (Host x) PbftError (Unit {0}))
          → start_node binds now drawn port seed bootstrap num_nodes index events ≡ ran t
          → (outcome t ≡ ok)
            × ((keypair : KeyPair x) × (w : PbftConsensus x) × (start_keys x drawn seed index
                  ≡ found keypair)
                × (start_engine x now keypair index num_nodes ≡ some w)
                × ((after t).consensus ≡ process_all x (inputs_of main_input events) w))
      unfolding start_node
      start_node-Refines binds drawn seed t h =
          let (keypair, keys, (ends, (w, made, same_engine))) =
            with_keys_lem binds (start_keys x drawn seed index) t h in
          (ends, (keypair, w, keys, made, same_engine))
