-- ===== src/Pbft/Progress.antt =====
-- src/pbft.rs: an entry with enough votes has moved on. What holds of the log between two handlers, and
-- within a handler, of the entry that it is about.
pub mod Blocks
pub mod Always
use p2p_pbft.Base.{
  ℕ, ◌<◌, ◌≡◌, ◌≢◌, refl, sym, ap, ◌∙◌, subst, inl, inr, List, Option, none, some, Bool, true,
  false, arith, length, ℕ_discrete, Option-cases,
}
use p2p_pbft.Base.Map.{lookup, insert, retain, is_some, lookup-insert, lookup-retain}
use p2p_pbft.External.{External}
use p2p_pbft.Message.{SequenceNumber}
use p2p_pbft.Pbft.State.{
  ConsensusInstance, PbftState, Phase, pre_prepared, prepared, instance_new, get_or_create_instance,
}

-- An entry that waits for prepares, or for commits, has fewer than `q`, where `p` and `c` say so.
pub record Moving (p c : Bool) (q : ℕ) (i : ConsensusInstance) : Type 0 where
  pub proposed : i.phase ≡ pre_prepared → (is_some i.pre_prepare ≡ true) × (is_some i.digest ≡ true)
  pub few_prepares : p ≡ true → i.phase ≡ pre_prepared → length i.prepares < q
  pub few_commits : c ≡ true → i.phase ≡ prepared → length i.commits < q

pub record AllMove (q : ℕ) (log : List (SequenceNumber × ConsensusInstance)) : Type 0 where
  pub at : (j : ℕ) (i : ConsensusInstance) → lookup ℕ_discrete j log ≡ some i → Moving true true q i

-- All entries move on, but of the one at `k` it is known only as far as `p` and `c` say.
pub record MovesBut (p c : Bool) (k q : ℕ) (log : List (SequenceNumber × ConsensusInstance))
    : Type 0 where
  pub others :
      (j : ℕ) (i : ConsensusInstance)
      → k ≢ j
      → lookup ℕ_discrete j log ≡ some i
      → Moving true true q i
  pub here : (i : ConsensusInstance) → lookup ℕ_discrete k log ≡ some i → Moving p c q i

module _ {q : ℕ} (log : List (SequenceNumber × ConsensusInstance)) where
  -- Once the entry at `k` moves on, all do.
  pub all_move :
      {p c : Bool} (k : ℕ)
      → MovesBut p c k q log
      → ((i : ConsensusInstance) → lookup ℕ_discrete k log ≡ some i → Moving true true q i)
      → AllMove q log
  all_move k m h = record {
    at = λ j i e. elim (ℕ_discrete k j) [
      | yes same ↦ h i (subst (λ l. lookup ℕ_discrete l log ≡ some i) (sym same) e)
      | no other ↦ m.others j i other e
    ];
  }

  pub moves_here :
      {p c : Bool} (k : ℕ) (i : ConsensusInstance)
      → MovesBut p c k q log
      → lookup ℕ_discrete k log ≡ some i
      → Moving true true q i
      → AllMove q log
  moves_here k i m found moves =
      all_move k m
        (λ i' e. let same_entry : i ≡ i' = cc in subst (Moving true true q) same_entry moves)

  -- The entry at `k` is written.
  pub put :
      {p c : Bool} (k : ℕ) (i : ConsensusInstance)
      → ((j : ℕ) (i' : ConsensusInstance)
          → k ≢ j
          → lookup ℕ_discrete j log ≡ some i'
          → Moving true true q i')
      → Moving p c q i
      → MovesBut p c k q (insert ℕ_discrete k i log)
  put {p} {c} k i old new = record {
    others = λ j i' other e. old j i' other (ground (arith, lookup-insert ℕ_discrete j k i log));
    here = λ i' e. subst (Moving p c q) (ground (arith, lookup-insert ℕ_discrete k k i log)) new;
  }

  -- The entry at `k` is written, and moves on.
  pub put_all :
      (k : ℕ) (i : ConsensusInstance)
      → ((j : ℕ) (i' : ConsensusInstance)
          → k ≢ j
          → lookup ℕ_discrete j log ≡ some i'
          → Moving true true q i')
      → Moving true true q i
      → AllMove q (insert ℕ_discrete k i log)
  put_all k i old new = record {
    at =
        let m = put k i old new in
        λ j i' e. elim (ℕ_discrete k j) [
          | yes same ↦
              m.here i' (
                subst (λ l. lookup ℕ_discrete l (insert ℕ_discrete k i log) ≡ some i') (sym same) e)
          | no other ↦ m.others j i' other e
        ];
  }

  pub AllMove-retain : (keep : ℕ → Bool) → AllMove q log → AllMove q (retain keep log)
  AllMove-retain keep old = record {
    at = λ j i e. old.at j i (ground (arith, lookup-retain ℕ_discrete j keep log));
  }

pub Moving-new : (q now k view : ℕ) → Moving true true q (instance_new now k view)
unfolding instance_new
Moving-new q now k view = record {
  proposed = λ h. absurd (ground arith);
  few_prepares = λ _ h. absurd (ground arith);
  few_commits = λ _ h. absurd (ground arith);
}

-- The entry that is lent.
pub Moving-lent :
    (x : External) {q : ℕ} (now k : ℕ) (s : PbftState x)
    → AllMove q s.log
    → Moving true true q (get_or_create_instance x now k s)
unfolding get_or_create_instance
Moving-lent x {q} now k s old = elim (Option-cases (lookup ℕ_discrete k s.log)) [
  | inl new ↦ rw (new) (Moving-new q now k s.view)
  | inr (i, e) ↦ rw (e) (old.at k i e)
]
