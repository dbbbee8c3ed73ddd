-- ===== src/Pbft/Normal.antt =====
-- src/pbft.rs: the normal case, `handle_request`, `handle_pre_prepare`, `handle_prepare` and
-- `handle_commit`. A block that the source runs under one lock is a function of its own.
use p2p_pbft.Base.{
  ℕ, ◌+◌, Bool, true, false, ◌&&◌, Option, none, some, ltb, leb, ◌==◌, if◌then◌else◌, same, wrap64,
  ℕ_discrete, bytes_discrete,
}
use p2p_pbft.Base.Map.{lookup, insert, is_some, contains, contains_key}
use p2p_pbft.Base.Flow.{branch, ◌>>=◌, ◌>>◌, pure, guard, return_if, unwrap, call}
use p2p_pbft.External.{External}
use p2p_pbft.Message.{
  Hash, Request, PrePrepare, Prepare, Commit, ConsensusMessage, consensus, request_digest,
}
use p2p_pbft.Pbft.Config.{
  invalid_message, invalid_signature, invalid_view, invalid_sequence, not_primary,
}
use p2p_pbft.Pbft.State.{
  ConsensusInstance, pre_prepared, PbftState, Engine, read, write, send, send_to,
  broadcast_consensus, primary, get_or_create_instance, put_instance, sign,
}
use p2p_pbft.Pbft.Signing.{proposal_data, commit_data, verify_node_signature}
use p2p_pbft.Pbft.Advance.{try_advance_to_prepared, try_advance_to_committed}

-- `digest == Some(d)`.
abbrev pub has_digest : Option Hash → Hash → Bool
has_digest none d = false
has_digest (some e) d = same e d

-- What `if let Some(..)` compares: the digest of the pre-prepare, or of the instance.
abbrev pub pre_prepare_admits : Option PrePrepare → Hash → Bool
pre_prepare_admits none d = true
pre_prepare_admits (some pp) d = same pp.digest d

abbrev pub digest_admits : Option Hash → Hash → Bool
digest_admits none d = true
digest_admits (some e) d = same d e

-- `if let Some(instance) = .. { if instance.pre_prepare.is_some() { .. } }`: the digest of an entry
-- that has a pre-prepare, which must be the new one's; then there is nothing left to do.
abbrev pub pre_prepared_digest : Option ConsensusInstance → Option (Option Hash)
pre_prepared_digest none = none
pre_prepared_digest (some i) = if is_some i.pre_prepare then some i.digest else none

abbrev pub agrees : Option (Option Hash) → Hash → Bool
agrees none d = true
agrees (some e) d = has_digest e d

module _ (x : External) where
  -- `low < sequence && sequence <= high`, the negation of the test in the source.
  abbrev pub in_watermarks : ℕ → PbftState x → Bool
  in_watermarks sequence s = ltb s.low_watermark sequence && leb sequence s.high_watermark

  unfoldable pub propose : ℕ → Request → Engine x (PrePrepare × Prepare)
  propose now r = do
    let digest = request_digest x r
    executed ← read x (λ s. s.executed)
    return_if (contains bytes_discrete digest executed)
    write x (λ s. record s { sequence = wrap64 (s.sequence + 1) })
    s ← read x (λ s. s)
    guard (leb s.sequence s.high_watermark) invalid_sequence
    let sign_data = proposal_data s.view s.sequence digest
    let pp : PrePrepare = record {
      view = s.view;
      sequence = s.sequence;
      digest = digest;
      request = r;
      primary_id = s.node_id;
      signature = sign x s sign_data;
    }
    let p : Prepare = record {
      view = s.view;
      sequence = s.sequence;
      digest = digest;
      replica_id = s.node_id;
      signature = sign x s sign_data;
    }
    let i = get_or_create_instance x now s.sequence s
    write x (
        put_instance x s.sequence (record i {
          request = some r;
          digest = some digest;
          pre_prepare = some pp;
          phase = pre_prepared;
          prepares = insert bytes_discrete s.node_id p i.prepares;
        }))
    pure (pp, p)

  unfoldable pub lead : ℕ → Request → Engine x (Unit {0})
  lead now r = do
    (pp, p) ← propose now r
    broadcast_consensus x (ConsensusMessage.pre_prepare pp)
    broadcast_consensus x (ConsensusMessage.prepare p)
    call (try_advance_to_prepared x pp.sequence)

  unfoldable pub handle_request : ℕ → Request → Engine x (Unit {0})
  handle_request now r = do
    s ← read x (λ s. s)
    p ← unwrap (primary x s)
    branch (same p s.node_id) (lead now r)
        (send x (send_to p (consensus (ConsensusMessage.request r))))

  unfoldable pub accept_pre_prepare : ℕ → PrePrepare → Engine x Prepare
  accept_pre_prepare now pp = do
    s ← read x (λ s. s)
    guard (pp.view == s.view) invalid_view
    leader ← unwrap (primary x s)
    guard (same pp.primary_id leader) not_primary
    guard (in_watermarks pp.sequence s) invalid_sequence
    let sign_data = proposal_data pp.view pp.sequence pp.digest
    guard (verify_node_signature x pp.primary_id sign_data pp.signature) invalid_signature
    let earlier = pre_prepared_digest (lookup ℕ_discrete pp.sequence s.log)
    guard (agrees earlier pp.digest) invalid_message
    return_if (is_some earlier)
    guard (same (request_digest x pp.request) pp.digest) invalid_message
    let p : Prepare = record {
      view = pp.view;
      sequence = pp.sequence;
      digest = pp.digest;
      replica_id = s.node_id;
      signature = sign x s sign_data;
    }
    let i = get_or_create_instance x now pp.sequence s
    write x (
        put_instance x pp.sequence (record i {
          request = some pp.request;
          digest = some pp.digest;
          pre_prepare = some pp;
          phase = pre_prepared;
          prepares = insert bytes_discrete s.node_id p i.prepares;
        }))
    write x (λ s. record s { last_primary_activity = now })
    pure p

  unfoldable pub handle_pre_prepare : ℕ → PrePrepare → Engine x (Unit {0})
  handle_pre_prepare now pp = do
    p ← accept_pre_prepare now pp
    broadcast_consensus x (ConsensusMessage.prepare p)
    call (try_advance_to_prepared x p.sequence)

  unfoldable pub accept_prepare : ℕ → Prepare → Engine x (Unit {0})
  accept_prepare now p = do
    s ← read x (λ s. s)
    guard (p.view == s.view) invalid_view
    guard (in_watermarks p.sequence s) invalid_sequence
    let sign_data = proposal_data p.view p.sequence p.digest
    guard (verify_node_signature x p.replica_id sign_data p.signature) invalid_signature
    let i = get_or_create_instance x now p.sequence s
    write x (put_instance x p.sequence i)
    guard (pre_prepare_admits i.pre_prepare p.digest) invalid_message
    return_if (contains_key bytes_discrete p.replica_id i.prepares)
    write x (
        put_instance x p.sequence
          (record i { prepares = insert bytes_discrete p.replica_id p i.prepares }))

  unfoldable pub handle_prepare : ℕ → Prepare → Engine x (Unit {0})
  handle_prepare now p = do accept_prepare now p; call (try_advance_to_prepared x p.sequence)

  unfoldable pub accept_commit : ℕ → Commit → Engine x (Unit {0})
  accept_commit now c = do
    s ← read x (λ s. s)
    guard (c.view == s.view) invalid_view
    guard (in_watermarks c.sequence s) invalid_sequence
    let sign_data = commit_data c.view c.sequence c.digest
    guard (verify_node_signature x c.replica_id sign_data c.signature) invalid_signature
    let i = get_or_create_instance x now c.sequence s
    write x (put_instance x c.sequence i)
    guard (digest_admits i.digest c.digest) invalid_message
    return_if (contains_key bytes_discrete c.replica_id i.commits)
    write x (
        put_instance x c.sequence
          (record i { commits = insert bytes_discrete c.replica_id c i.commits }))

  unfoldable pub handle_commit : ℕ → Commit → Engine x (Unit {0})
  handle_commit now c = do accept_commit now c; call (try_advance_to_committed x c.sequence)
