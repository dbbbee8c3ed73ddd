-- ===== src/Message/Digest.antt =====
-- src/message.rs, `Request::digest`: what the digest of a request does not tell apart.
use mathlib.Core.List.{append_assoc}
use p2p_pbft.Base.{◌≡◌, ◌≢◌, ap, sym, ◌∙◌, [], ◌∷◌, ◌++◌, Bytes, is_not_longer}
use p2p_pbft.External.{External}
use p2p_pbft.Words.{to_le_bytes}
use p2p_pbft.Message.{Request, request_digest}

-- For every client id and operation there are two different requests with one digest: at time 0, the
-- zero byte that ends one client id may as well begin the other operation.
pub request_digest_ambiguous :
    (x : External) (client_id operation : Bytes)
    → let r : Request = record {
      client_id = client_id;
      timestamp = 0;
      operation = 0 ∷ operation;
    } in
      let s : Request = record {
        client_id = client_id ++ (0 ∷ []);
        timestamp = 0;
        operation = operation;
      } in
      (r ≢ s) × (request_digest x r ≡ request_digest x s)
unfolding request_digest to_le_bytes
request_digest_ambiguous x client_id operation =
    let zeros = to_le_bytes 8 0 in
    (
      λ e. is_not_longer 0 operation (sym (ap (λ r. r.operation) e)),
      ap x.sha256 (
          append_assoc client_id zeros (0 ∷ operation)
          ∙ sym (
              append_assoc (client_id ++ (0 ∷ [])) zeros operation
              ∙ append_assoc client_id (0 ∷ []) (zeros ++ operation))),
    )
