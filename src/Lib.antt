-- ===== src/Lib.antt =====
-- A model of the PBFT replica of this repository, a Rust program, with theorems on it.
--
-- The program. A node connects to its peers by a handshake, and a reader task for each of them puts
-- what comes into one channel (src/network.rs). The loop of src/main.rs, or that of `Node::start` in
-- src/node.rs, hands the consensus messages to the engine (src/pbft.rs), and a task sends what the
-- engine puts on its outgoing channel to the peers; requests that commit go to a second channel, whose
-- task only logs them. src/message.rs has the messages and src/crypto.rs the signatures over ed25519.
--
-- The files, and what they are about.
--   Base, Base/...     lists, maps, Booleans and the small language of code under a lock
--   External           the operations of the crates ed25519-dalek, hex and sha2, and their laws
--   Format, Words      `format!` of numbers and byte arrays; little-endian bytes of words
--   Message            src/message.rs: `Request`, `PrePrepare`, ..., `Request::digest`, `compute_hash`
--   Crypto             src/crypto.rs: `KeyPair`, `verify_signature`
--   Pbft/Config        `PbftError`, `PbftConfig::new`, `quorum`
--   Pbft/State         `ConsensusInstance`, `PbftState`, `PbftConsensus` and their methods
--   Pbft/Signing       the texts that are signed, and `verify_node_signature`
--   Pbft/Normal        `handle_request`, `handle_pre_prepare`, `handle_prepare`, `handle_commit`
--   Pbft/Advance       `try_advance_to_prepared`, `try_advance_to_committed`, `try_checkpoint`
--   Pbft/Maintenance   `handle_checkpoint`, `handle_view_change`, `handle_new_view`,
--                      `start_view_change`, `check_timeout`
--   Pbft/Process       `process_message`, and the engine's part of the loop of `start_node`
--   Network/Frame      `send_message`, `receive_message`, `peer_writer`, `peer_reader`
--   Network/Peers      `PeerHandle`, `Network`, `start_listener`, `send_to_peer`, `broadcast`
--   Network/Connect    the two `connect_to_peer`, `handle_incoming_connection`, the reader task
--   Host               the engine beside the network, and the task of outgoing messages
--   Node, Node/Builder src/node.rs: `Node` and `NodeBuilder`
--   Main               src/main.rs: `start_node`'s keys, replicas, engine and loop; `keygen`
--   Main/Start         `start_node` as a whole
--   Main/Sort          `sort` of the list of replicas
--   Main/Running       the main loop beside its network and the channel of messages
--   Main/Cli           the lines of the command line
--   Main/Terminal      the task of the command line, and the line of the status
--   Main/Program       `main` and its commands
-- The other files hold theorems: Pbft/Invariant, Pbft/Safety, Pbft/Frame, Pbft/Views, Pbft/Timeout,
-- Pbft/Votes, Pbft/Ballots, Pbft/Cluster, Pbft/Proposals, Pbft/Progress, Pbft/Histories, Pbft/Quiet,
-- Pbft/Refused, Pbft/Gathered, Pbft/Collection, Pbft/OwnSignature, Pbft/Quorum, Pbft/SignedText,
-- Message/Digest, Crypto/Verification, Format/Injective, Network/RoundTrip, Network/Sizes,
-- Network/Reading, Network/Broadcast, Network/Table, Network/Meeting, Network/Channel, Host/Loop,
-- Node/Engine, Node/Start, Main/Replicas, Main/Engine, Main/Started, Main/Running/Channel,
-- Main/Running/Steps, Main/Running/Order, Main/Terminal/Prints, Main/Terminal/Typed,
-- Main/Terminal/Started. Tests holds runs of the code and the theorems at concrete inputs.
--
-- How the code is rendered.
--   Each handler is a function on the engine that returns the engine it leaves and how it was left:
--   `Ok(())`, an error, or a panic (`unwrap` of nothing, an index out of range, a remainder by zero).
--   A block that the source runs under one lock is a function of its own, such as `make_commit` in
--   `try_advance_to_prepared`; the handlers compose these blocks in the order of the source. What
--   other tasks do between two blocks of one handler is not modelled: handlers run one at a time, as
--   they do in the loop of src/main.rs.
--   The channels are the lists of what was sent, the newest first, but for the requests of the command
--   line, of which the first stands first; a send does not fail and does not
--   block. The clock is an argument, in nanoseconds. A `HashMap` is a list of pairs with distinct
--   keys, in the order of insertion, which stands for the unspecified order of the source; a
--   `HashSet` is a list. A `String` is its UTF-8 bytes, a byte is a natural number.
--   A u64 is a natural number whose sums are written out modulo 2^64, as in a release build. The
--   fields of a message are not bounded. `decimal` recurs on fuel: n + 1 turns are enough for n,
--   which has at most that many digits. `peer_reader` recurs on fuel too.
--   A stream is the bytes that come before its end; a writer never fails. A `KeyPair` is made from
--   the random or given seed. A connection is the stream that the other side sends on it: `dial`, a
--   parameter, gives it for an address that answers. bincode is a parameter too. The reader task of a
--   peer gets one turn more than its stream has bytes, which is enough for every stream.
--   A panic in a log line, where an id is sliced, is part of the code, as logging is at the level that
--   src/main.rs sets. A panic of a task leaves the state as it is then.
--   The tasks of a node run in the order of a list of events: a message that arrives, a request of
--   the command line, a turn of the task that sends, a connection made or accepted, the end of a
--   reader. Within one event no other task runs. `start_listener` is the bind alone; the task that it spawns
--   ends with no connection, and what a connection does is an event. A `Network` keeps a sender of its channel
--   of messages, so the loop of `Node::start` does not end; the model gives the state of the loop after any
--   messages. Connections that are made and accepted are the events of
--   Network/Table. Main/Running has them among the events of the main loop, which takes from the channel
--   what the readers have put there; the loops of Main and Node take any messages and do not list
--   connections.
--
-- Not modelled: sockets, the scheduling of tasks, locks and the text of log lines and errors; the
-- tasks of src/node.rs and src/main.rs that only log committed requests or the timeout; how clap reads
-- the options of the program, whose result is an argument of `main`;
-- the bounds of channels, at which a sender waits; src/lib.rs, which only names the modules.
pub mod Base
pub mod External
pub mod Format
pub mod Words
pub mod Message
pub mod Crypto
pub mod Pbft
pub mod Network
pub mod Host
pub mod Node
pub mod Main
pub mod Tests
