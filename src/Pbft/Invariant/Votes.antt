-- ===== src/Pbft/Invariant/Votes.antt =====
-- src/pbft.rs: the prepares and the commits of an instance, as votes of replicas.
use mathlib.Core.Logic.{ite}
use p2p_pbft.Base.{ℕ, ◌≡◌, subst, sym, ◌∙◌, List, [], some, bytes_discrete}
use p2p_pbft.Base.Map.{lookup, insert, lookup-insert}
use p2p_pbft.Base.Keys.{Distinct, Distinct-insert}
use p2p_pbft.Message.{NodeId}

-- One vote for each voter, stored under the voter's name and cast for the sequence number `k`.
abbrev pub Ballot : {V : Type 0} → (V → NodeId) → (V → ℕ) → ℕ → List (NodeId × V) → Type 0
Ballot {V} voter about k m =
    Distinct bytes_discrete m
    × ((id : NodeId) (v : V) → lookup bytes_discrete id m ≡ some v → (voter v ≡ id) × (about v ≡ k))

module _ {V : Type 0} where
  pub Ballot-nil : {voter : V → NodeId} {about : V → ℕ} (k : ℕ) → Ballot voter about k []
  unfolding lookup
  Ballot-nil k = (tt, λ id v e. absurd (cc))

  pub Ballot-insert :
      {voter : V → NodeId} {about : V → ℕ} (k : ℕ) (v : V) (m : List (NodeId × V))
      → about v ≡ k
      → Ballot voter about k m
      → Ballot voter about k (insert bytes_discrete (voter v) v m)
  Ballot-insert {voter} {about} k v m for_k (d, cast) =
      (Distinct-insert bytes_discrete (voter v) v m d, stored)
    where
      stored :
          (id : NodeId) (u : V)
          → lookup bytes_discrete id (insert bytes_discrete (voter v) v m) ≡ some u
          → (voter u ≡ id) × (about u ≡ k)
      stored id u h =
          elim (bytes_discrete (voter v) id)
              as (λ c.
                ite c (some v) (lookup bytes_discrete id m) ≡ some u
                → (voter u ≡ id) × (about u ≡ k)) [
                  | yes p ↦ λ e.
                      let same_vote : v ≡ u = cc in
                      subst (λ w. (voter w ≡ id) × (about w ≡ k)) same_vote (p, for_k)
                  | no n ↦ λ e. cast id u e
                ]
            (sym (lookup-insert bytes_discrete id (voter v) v m) ∙ h)
