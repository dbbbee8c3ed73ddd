-- ===== src/Main/Program.antt =====
-- src/main.rs: the program, from its options to its end.
use p2p_pbft.Base.{ℕ, List, ◌++◌, Bool, Option, Bytes}
use p2p_pbft.External.{External}
use p2p_pbft.Crypto.{public_key_hex}
use p2p_pbft.Network.Frame.{Bincode}
use p2p_pbft.Main.{MainEvent, SeedError, Keys, found, refused}
use p2p_pbft.Main
use p2p_pbft.Main.Start.{Started, start_node}
use p2p_pbft.Main.Terminal.{utf8, label}

-- The port, the seed in hex, the bootstrap peers, the number of nodes and the index of `start`; the seed
-- of `keygen`.
pub data Commands : Type 0 where
  start : ℕ → Option Bytes → List Bytes → ℕ → Option ℕ → Commands
  keygen : Option Bytes → Commands

-- A node that was started, or what `keygen` printed or was refused for.
pub data Ended (x : External) : Type 0 where
  ran : Started x → Ended x
  printed : Bytes → Ended x
  failed : SeedError → Ended x

module _ (x : External) where
  unfoldable pub print_id : Keys x → Ended x
  print_id (found keypair) = printed (
      label "Public Key (Node ID): " (public_key_hex x keypair)
      ++ utf8 "\n\nThis is your node's identity in the network.\n")
  print_id (refused e) = failed e

  unfoldable pub main :
      Bincode
      → (Bytes → Option Bytes)
      → Bool
      → ℕ
      → x.SigningKey
      → List MainEvent
      → Commands
      → Ended x
  main b dial binds now drawn events (start port seed bootstrap nodes index) =
      ran (start_node b dial x binds now drawn port seed bootstrap nodes index events)
  main b dial binds now drawn events (keygen seed) = print_id (Main.keygen x drawn seed)
