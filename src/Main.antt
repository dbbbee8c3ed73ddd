-- ===== src/Main.antt =====
-- src/main.rs: the keys and the replicas that `start_node` sets up, `keygen`, and the main loop.
pub mod Sort
pub mod Replicas
pub mod Engine
pub mod Started
pub mod Start
pub mod Cli
pub mod Terminal
pub mod Program
pub mod Running
use p2p_pbft.Base.{
  ℕ, zero, suc, ◌%◌, List, [], ◌∷◌, ◌++◌, Bool, true, false, ◌||◌, ◌==◌, if◌then◌else◌, Option,
  none, some, length, replicate, Bytes,
}
use p2p_pbft.Base.Flow.{pure, panic_if, ◌>>◌}
use p2p_pbft.External.{External}
use p2p_pbft.Message.{
  NodeId, NetworkMessage, Request, consensus, ping, pong, handshake, handshake_ack,
}
use p2p_pbft.Crypto.{KeyPair, generate, from_seed, public_key_hex}
use p2p_pbft.Network.Connect.{slice_panics}
use p2p_pbft.Pbft.Config.{config_new}
use p2p_pbft.Pbft.State.{PbftConsensus, PbftState, state_new, consensus_new}
use p2p_pbft.Pbft.Normal.{handle_request}
use p2p_pbft.Pbft.Process.{process_message}
use p2p_pbft.Host.{Host, Loop, dispatch, logged, send_pong, run_loop}
use p2p_pbft.Main.Sort.{sort}

-- An error of `hex::decode`, and "Seed must be 32 bytes".
pub data SeedError : Type 0 where
  not_hex wrong_length : SeedError

pub data Keys (x : External) : Type 0 where
  found : KeyPair x → Keys x
  refused : SeedError → Keys x

-- `seed[0] = index as u8` in an array of 32 zeros.
abbrev pub index_seed : ℕ → Bytes
index_seed index = (index % 256) ∷ replicate 31 0

-- What the loop of `start_node` and the task of outgoing messages do, in the order in which they do it:
-- a request of the command line, a message of a peer, a turn of the task.
pub data MainEvent : Type 0 where
  submitted : ℕ → Request → MainEvent
  arrived : ℕ → NodeId → NetworkMessage → MainEvent
  outgoing_turn : MainEvent

module _ (x : External) where
  seed_keys : Option Bytes → Keys x
  seed_keys none = refused not_hex
  seed_keys (some seed) =
      if length seed == 32 then found (from_seed x seed) else refused wrong_length

  -- The key pair of `start_node`, from the options `--seed` and `--index`, or on the key that
  -- `generate` would draw.
  unfoldable pub start_keys : x.SigningKey → Option Bytes → Option ℕ → Keys x
  unfolding seed_keys
  start_keys drawn (some seed_hex) index = seed_keys (x.hex_decode seed_hex)
  start_keys drawn none (some index) = found (from_seed x (index_seed index))
  start_keys drawn none none = found (generate x drawn)

  -- `keygen`, which prints the id of these keys.
  unfoldable pub keygen : x.SigningKey → Option Bytes → Keys x
  unfolding seed_keys
  keygen drawn (some seed_hex) = seed_keys (x.hex_decode seed_hex)
  keygen drawn none = found (generate x drawn)

  abbrev pub replica_id : ℕ → NodeId
  replica_id i = public_key_hex x (from_seed x (index_seed i))

  -- The ids that the loop pushes for 0, .., n - 1.
  unfoldable pub replica_ids : ℕ → List NodeId
  replica_ids zero = []
  replica_ids (suc n) = replica_ids n ++ (replica_id n ∷ [])

  unfoldable pub replicas_of : Option ℕ → ℕ → NodeId → List NodeId
  replicas_of none num_nodes node_id = node_id ∷ []
  replicas_of (some index) num_nodes node_id = sort (replica_ids num_nodes)

  -- Whether the log lines that list the replicas panic.
  abbrev pub listing_panics : List NodeId → Bool
  listing_panics [] = false
  listing_panics (r ∷ rs) = slice_panics r || listing_panics rs

  abbrev pub listed : Option ℕ → List NodeId → Bool
  listed none replicas = false
  listed (some index) replicas = listing_panics replicas

  -- The engine that `start_node` makes; `none` is a panic.
  unfoldable pub start_engine : ℕ → KeyPair x → Option ℕ → ℕ → Option (PbftConsensus x)
  start_engine now keypair index num_nodes =
      let node_id = public_key_hex x keypair in
      let replicas = replicas_of index num_nodes node_id in
      if listed index replicas
      then none
      else some (consensus_new x (state_new x now node_id keypair replicas (config_new num_nodes)))

  -- One turn of the main loop. The log line on a consensus message slices the peer's id; a ping is
  -- answered to the peer that sent it.
  unfoldable pub main_message : NodeId → ℕ → NodeId → NetworkMessage → Loop x
  main_message node_id now peer_id (consensus m) =
      panic_if (slice_panics peer_id) >> logged x (process_message x now m)
  main_message node_id now peer_id (ping _ timestamp) = send_pong x peer_id node_id timestamp
  main_message node_id now peer_id (pong _ _) = pure tt
  main_message node_id now peer_id (handshake _ _) = pure tt
  main_message node_id now peer_id (handshake_ack _ _) = pure tt

  unfoldable pub main_turn : NodeId → MainEvent → Loop x
  main_turn node_id (submitted now r) = logged x (handle_request x now r)
  main_turn node_id (arrived now peer_id msg) = main_message node_id now peer_id msg
  main_turn node_id outgoing_turn = dispatch x

  unfoldable pub main_loop : NodeId → List MainEvent → Loop x
  main_loop node_id = run_loop x (main_turn node_id)
