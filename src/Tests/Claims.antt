-- ===== src/Tests/Claims.antt =====
-- The theorems on quorums, signatures and views, at concrete inputs.
use p2p_pbft.Base.{true, ℕ, ◌+◌, ◌*◌, ◌≤◌, ◌<◌, ◌≡◌, refl, [], ◌∷◌, Bool, arith, ltb}
use p2p_pbft.Base.Flow.{after}
use p2p_pbft.Message.{NewView, ConsensusMessage}
use p2p_pbft.Crypto.{
  ok, from_seed, sign, verify, verify_signature, public_key_bytes, public_key_hex,
}
use p2p_pbft.Crypto.Verification.{verify-sign}
use p2p_pbft.Pbft.Config.{config_new, quorum}
use p2p_pbft.Pbft.OwnSignature.{own_signature_accepted}
use p2p_pbft.Pbft.State
use p2p_pbft.Pbft.State.{state_new, consensus_new}
use p2p_pbft.Pbft.Signing.{verify_node_signature}
use p2p_pbft.Pbft.Quorum.{config_new_bounds, count, both, quorums_meet, quorums_may_miss}
use p2p_pbft.Pbft.SignedText.{Signed, signed_text-injective}
use p2p_pbft.Pbft.Views.{Changes, Grows, process_input-Changes, process_all-Grows}
use p2p_pbft.Pbft.Process.{received, process_input, process_all}
use p2p_pbft.Tests.Sample.{sample, sample_laws, node}
use p2p_pbft.Tests.Runs.{backup, normal_case}

config_new_bounds_example :
    let c = config_new 4 in
    (3 * c.f < 4) × (4 ≤ 3 * c.f + 3) × (quorum c ≡ 2 * c.f + 1) × (quorum c + c.f ≤ 4)
config_new_bounds_example = config_new_bounds 4 (omega arith) (omega arith)

abbrev first_three : ℕ → Bool
first_three i = ltb i 3

abbrev last_three : ℕ → Bool
last_three i = ltb 0 i

quorum_of_three : quorum (config_new 4) ≤ count first_three 4
unfolding config_new quorum count
quorum_of_three = omega arith

quorum_of_others : quorum (config_new 4) ≤ count last_three 4
unfolding config_new quorum count
quorum_of_others = omega arith

quorums_meet_example : (config_new 4).f < count (both first_three last_three) 4
quorums_meet_example =
    quorums_meet 4 first_three last_three (omega arith) refl quorum_of_three quorum_of_others

quorums_may_miss_example :
    (p : ℕ → Bool) × (q : ℕ → Bool) × (count p 6 ≡ quorum (config_new 6))
    × (count q 6 ≡ quorum (config_new 6))
    × (count (both p q) 6 ≤ (config_new 6).f)
quorums_may_miss_example = quorums_may_miss 6 (omega arith) (omega arith) (omega arith)

verify-sign_example :
    let k = from_seed sample (5 ∷ []) in
    (verify sample k (b'm' ∷ []) (sign sample k (b'm' ∷ [])) ≡ ok)
    × (verify_signature sample (public_key_bytes sample k) (b'm' ∷ []) (sign sample k (b'm' ∷ []))
        ≡ ok)
verify-sign_example = verify-sign sample sample_laws (5 ∷ []) (b'm' ∷ [])

signed_text-injective_example : Signed.commit 2 3 [] ≡ Signed.commit 2 3 []
signed_text-injective_example =
    signed_text-injective (Signed.commit 2 3 []) (Signed.commit 2 3 []) refl

abbrev for_view_five : NewView
for_view_five = record { new_view = 5; view_changes = []; primary_id = []; signature = [] }

process_input-Changes_example :
    Changes sample
      (received (ConsensusMessage.new_view for_view_five))
      backup
      (after (process_input sample 1 (received (ConsensusMessage.new_view for_view_five)) backup))
process_input-Changes_example =
    process_input-Changes sample 1 (received (ConsensusMessage.new_view for_view_five)) backup

process_all-Grows_example : Grows sample backup (process_all sample normal_case backup)
process_all-Grows_example = process_all-Grows sample normal_case backup

-- Under the stand-in, the hex of a public key is the public key.
own_signature_accepted_example :
    verify_node_signature sample (node 1) (b'm' ∷ []) (State.sign sample backup.state (b'm' ∷ []))
    ≡ true
unfolding from_seed public_key_hex public_key_bytes state_new consensus_new
own_signature_accepted_example =
    own_signature_accepted sample sample_laws (1 ∷ []) (b'm' ∷ []) backup.state refl refl
