-- ===== src/Tests/Records.antt =====
-- The theorems on digests and on checkpoints, at concrete inputs.
use p2p_pbft.Base.{ℕ, ◌≡◌, ◌≢◌, ◌⊎◌, [], ◌∷◌, List, ◌++◌, some, bytes_discrete}
use p2p_pbft.Base.Map.{lookup}
use p2p_pbft.Base.Flow.{after}
use p2p_pbft.Message.{Request, Checkpoint, checkpoint, request_digest}
use p2p_pbft.Message.Digest.{request_digest_ambiguous}
use p2p_pbft.Pbft.Config.{config_new}
use p2p_pbft.Pbft.Maintenance.{entry, handle_checkpoint}
use p2p_pbft.Pbft.Process.{Input, received, process_all}
use p2p_pbft.Pbft.Gathered.{CheckpointVotes, CameIn}
use p2p_pbft.Pbft.Collection.{Collected, handle_checkpoint-Collects}
use p2p_pbft.Tests.Sample.{sample, node, pair, four}
use p2p_pbft.Tests.Runs.{backup, normal_case}

request_digest_ambiguous_example :
    let r : Request = record { client_id = b'c' ∷ []; timestamp = 0; operation = 0 ∷ b'h' ∷ [] } in
    let s : Request = record { client_id = b'c' ∷ 0 ∷ []; timestamp = 0; operation = b'h' ∷ [] } in
    (r ≢ s) × (request_digest sample r ≡ request_digest sample s)
request_digest_ambiguous_example = request_digest_ambiguous sample (b'c' ∷ []) (b'h' ∷ [])

abbrev announced : ℕ → Checkpoint
announced i = record { sequence = 1; digest = []; replica_id = node i; signature = [] }

-- The normal case and two checkpoint messages for the entry that it left.
abbrev nearly_stable : List (ℕ × Input)
nearly_stable =
    normal_case
    ++ ((6, received (checkpoint (announced 0))) ∷ (7, received (checkpoint (announced 2))) ∷ [])

handle_checkpoint-Collects_example :
    let w = process_all sample nearly_stable backup in
    let u = after (handle_checkpoint sample (announced 3) w) in
    let votes = entry 1 u.state.checkpoints in
    CheckpointVotes (λ d. CameIn nearly_stable d ⊎ (d ≡ announced 3)) 1 votes
    × (lookup bytes_discrete (node 3) votes ≡ some (announced 3))
    × Collected sample (announced 3) w u 1
handle_checkpoint-Collects_example =
    handle_checkpoint-Collects sample 0 (node 1) (pair 1) four (config_new 4) nearly_stable
      (announced 3) 1
