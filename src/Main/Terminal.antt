-- ===== src/Main/Terminal.antt =====
-- src/main.rs: the task of the command line, which prints, and sends
-- requests to the main loop.

pub mod Prints
pub mod Typed
pub mod Started
use Prim.Native.String.{String}
use p2p_pbft.Base.{
  ℕ, suc, ◌+◌, ◌-◌, List, [], ◌∷◌, ◌++◌, Bool, true, false, Option, none, some, leb, same,
  if◌then◌else◌, length, take, Bytes,
}
use p2p_pbft.Base.Flow.{Flow, ◌>>=◌, ◌>>◌, pure, gets, modify, guard, panic_if, branch, unwrap}
use p2p_pbft.External.{External}
use p2p_pbft.Format.{text, decimal}
use p2p_pbft.Message.{NodeId, Request}
use p2p_pbft.Crypto.{public_key_hex}
use p2p_pbft.Network.Connect.{slice_panics}
use p2p_pbft.Node.{request_new}
use p2p_pbft.Pbft.State.{PbftState, is_primary, primary}
use p2p_pbft.Main.{MainEvent, SeedError, Keys, found, refused, keygen}
use p2p_pbft.Main.Cli.{
  Text, as_bytes, Command, submit, nothing, submit_usage, status, peers, help, quit, unknown,
  parse_line,
}

-- What has been printed, and the requests that were sent, the first one first; `receiving` says whether the main
-- loop still receives them.
pub record Terminal : Type 0 where
  pub printed : Bytes
  pub sent : List Request
  pub receiving : Bool

-- `std::process::exit(0)`
pub data Exit : Type 0 where
  exited : Exit

abbrev pub Cli : Type 0 → Type 0
Cli = Flow Terminal Exit

abbrev pub utf8 : String → Bytes
utf8 s = as_bytes (text s)

unfoldable pub print : Bytes → Cli (Unit {0})
print b = modify (λ t. record t { printed = t.printed ++ b })

unfoldable pub println : Bytes → Cli (Unit {0})
unfolding print
println b = print (b ++ b'\n' ∷ [])

abbrev pub label : String → Bytes → Bytes
label name value = utf8 name ++ value

-- `{}...` on the first 16 bytes of an id
abbrev pub short : NodeId → Bytes
short id = take 16 id ++ utf8 "..."

-- `cli_request_tx.send(request)`, and whether it failed
unfoldable pub send_request : Request → Cli Bool
send_request r = gets (λ t. t.receiving) >>= λ received.
    modify (λ t. record t { sent = if t.receiving then t.sent ++ r ∷ [] else t.sent })
    >> pure received

unfoldable pub run_help : Cli (Unit {0})
run_help = do
  println (utf8 "Commands:")
  println (utf8 "  submit <data>  - Submit a request")
  println (utf8 "  status         - Show node status")
  println (utf8 "  peers          - Show replica list")
  println (utf8 "  help           - Show this help")
  println (utf8 "  quit           - Exit")

module _ (x : External) where
  -- `debug_str` is the `{:?}` of a `str`; `send_error` is what an error of `send` displays.
  module _ (debug_str : Text → Bytes) (send_error : Bytes) where
    unfoldable pub run_submit : ℕ → NodeId → PbftState x → Text → Cli (Unit {0})
    run_submit millis node_id s operation = do
      leads ← unwrap (is_primary x s)
      branch leads (println (utf8 "Submitting request as primary..."))
          (println (utf8 "Forwarding request to primary..."))
      sent ← send_request (request_new millis node_id (as_bytes operation))
      branch sent (println (label "Request submitted: " (debug_str operation)))
          (println (label "Failed to submit request: " send_error))

  unfoldable pub run_status : PbftState x → Cli (Unit {0})
  run_status s = do
    println (utf8 "═══════════════════════════════════════")
    println (utf8 "  Node Status")
    println (utf8 "═══════════════════════════════════════")
    panic_if (slice_panics s.node_id)
    println (label "  Node ID:     " (short s.node_id))
    println (label "  View:        " (decimal s.view))
    println (label "  Sequence:    " (decimal s.sequence))
    leads ← unwrap (is_primary x s)
    println (label "  Role:        " (if leads then utf8 "PRIMARY" else utf8 "BACKUP"))
    leader ← unwrap (primary x s)
    panic_if (slice_panics leader)
    println (label "  Primary:     " (short leader))
    println (utf8 "───────────────────────────────────────")
    println (label "  Replicas:    " (decimal (length s.replicas)))
    println (label "  Log entries: " (decimal (length s.log)))
    println (label "  Executed:    " (decimal (length s.executed)))
    println (utf8 "═══════════════════════════════════════")

  unfoldable pub replica_line : PbftState x → ℕ → NodeId → Cli (Unit {0})
  replica_line s i r = do
    leader ← unwrap (primary x s)
    panic_if (slice_panics r)
    println (
        utf8 "  "
        ++ (decimal i
            ++ (utf8 ": "
                ++ (short r
                    ++ ((if same r s.node_id then utf8 " (self)" else [])
                        ++ (if same r leader then utf8 " [PRIMARY]" else []))))))

  unfoldable pub replica_lines : PbftState x → ℕ → List NodeId → Cli (Unit {0})
  replica_lines s i [] = pure tt
  replica_lines s i (r ∷ rs) = replica_line s i r >> replica_lines s (suc i) rs

  unfoldable pub run_peers : PbftState x → Cli (Unit {0})
  run_peers s = do
    println (utf8 "Replicas (" ++ (decimal (length s.replicas) ++ utf8 "):"))
    replica_lines s 0 s.replicas

  module _ (debug_str : Text → Bytes) (send_error : Bytes) where
    unfoldable pub run_command : ℕ → NodeId → PbftState x → Command → Cli (Unit {0})
    run_command millis node_id s nothing = pure tt
    run_command millis node_id s submit_usage = println (utf8 "Usage: submit <data>")
    run_command millis node_id s (submit operation) =
        run_submit debug_str send_error millis node_id s operation
    run_command millis node_id s status = run_status s
    run_command millis node_id s peers = run_peers s
    run_command millis node_id s help = run_help
    run_command millis node_id s quit = println (utf8 "Goodbye!") >> guard false exited
    run_command millis node_id s unknown =
        println (utf8 "Unknown command. Type 'help' for available commands.")

    -- The lines that were typed, each with the time in milliseconds and the state of the engine when the task
    -- reads it.
    unfoldable pub cli_loop : NodeId → List (ℕ × PbftState x × Text) → Cli (Unit {0})
    cli_loop node_id [] = pure tt
    cli_loop node_id ((millis, s, line) ∷ typed) =
        print (utf8 "> ")
        >> (run_command millis node_id s (parse_line line) >> cli_loop node_id typed)

  -- What the task of the status logs, of a node with `connected` peers; `none` is the panic of `is_primary`.
  unfoldable pub status_line : PbftState x → ℕ → Option Bytes
  status_line s connected =
      let expected = length s.replicas - 1 in
      elim (is_primary x s) [
        | none ↦ none
        | some leads ↦ some (
            label "Status: view=" (decimal s.view)
            ++ (label ", seq=" (decimal s.sequence)
                ++ (label ", primary=" (if leads then utf8 "true" else utf8 "false")
                    ++ (label ", peers=" (decimal connected)
                        ++ (label "/" (decimal expected)
                            ++ (label " (" (
                                  if leb expected connected
                                  then utf8 "✓ fully connected"
                                  else utf8 "⚠ partial")
                                ++ utf8 ")"))))))
      ]
