-- ===== src/Pbft/Progress/Blocks.antt =====
-- src/pbft.rs: the blocks that write entries, for the theorem that no entry with enough votes waits.
use p2p_pbft.Base.{ℕ, ◌<◌, ◌≡◌, refl, true, false, arith, length, ℕ_discrete}
use p2p_pbft.Base.Map.{insert}
use p2p_pbft.Base.Flow.Ends.{
  Ends, gets-Ends, modify-Ends, guard-Ends, return_if-Ends, return_if-Ends_known, unwrap-Ends,
  unwrap-Ends_known, some_or_return-Ends_known, pure-Ends, write-Ends,
}
use p2p_pbft.External.{External}
use p2p_pbft.Message.{Request, PrePrepare, Prepare, Commit}
use p2p_pbft.Pbft.Config.{quorum}
use p2p_pbft.Pbft.State.{
  PbftConsensus, pre_prepared, prepared, put_instance, get_or_create_instance,
}
use p2p_pbft.Pbft.Advance.{commit_instance, make_commit}
use p2p_pbft.Pbft.Normal.{propose, accept_pre_prepare, accept_prepare, accept_commit}
use p2p_pbft.Pbft.Progress.{AllMove, MovesBut, all_move, moves_here, put, put_all, Moving-lent}

module _ (x : External) where
  abbrev pub All : PbftConsensus x → Type 0
  All w = AllMove (quorum w.state.config) w.state.log

  -- The entry at `k` may have enough prepares, or enough commits.
  abbrev pub MayPrepare : ℕ → PbftConsensus x → Type 0
  MayPrepare k w = MovesBut false true k (quorum w.state.config) w.state.log

  abbrev pub MayCommit : ℕ → PbftConsensus x → Type 0
  MayCommit k w = MovesBut true false k (quorum w.state.config) w.state.log

  pub make_commit-MayCommit :
      (k : ℕ) (w : PbftConsensus x)
      → MayPrepare k w
      → Ends All (λ _. MayCommit k) (make_commit x k w)
  unfolding make_commit put_instance
  make_commit-MayCommit k w m = gets-Ends _ _ _ (
      some_or_return-Ends_known _ _ _
        (λ missing. all_move w.state.log k m (λ i found. absurd (ground arith)))
        λ i found.
          let old = m.here i found in
          let moves : (i.phase ≡ pre_prepared → length i.prepares < quorum w.state.config) → All w =
            λ few. moves_here w.state.log k i m found (record {
              proposed = old.proposed;
              few_prepares = λ _. few;
              few_commits = old.few_commits;
            }) in
          return_if-Ends_known _ _ _ (λ none_yet. moves (λ p. ground (arith, old.proposed p)))
            λ has_pp.
              return_if-Ends_known _ _ _ (λ other. moves (λ p. ground arith))
                λ is_pre_prepared.
                  return_if-Ends_known _ _ _ (λ few. moves (λ p. ground arith))
                    λ enough.
                      unwrap-Ends_known _ _ _
                        (λ no_digest. moves (λ p. ground (arith, old.proposed p)))
                        λ d e. modify-Ends _ _ _ (
                          pure-Ends _ _ _ (
                            put w.state.log k _ m.others (record {
                              proposed = λ h. absurd (ground arith);
                              few_prepares = λ _ h. absurd (ground arith);
                              few_commits = λ h. absurd (ground arith);
                            }))))

  pub commit_instance-All :
      (k : ℕ) (w : PbftConsensus x) → MayCommit k w → Ends All (λ _. All) (commit_instance x k w)
  unfolding commit_instance put_instance
  commit_instance-All k w m = gets-Ends _ _ _ (
      some_or_return-Ends_known _ _ _
        (λ missing. all_move w.state.log k m (λ i found. absurd (ground arith)))
        λ i found.
          let old = m.here i found in
          let moves : (i.phase ≡ prepared → length i.commits < quorum w.state.config) → All w =
            λ few. moves_here w.state.log k i m found (record {
              proposed = old.proposed;
              few_prepares = old.few_prepares;
              few_commits = λ _. few;
            }) in
          return_if-Ends_known _ _ _ (λ other. moves (λ p. ground arith))
            λ is_prepared.
              return_if-Ends_known _ _ _ (λ few. moves (λ p. ground arith))
                λ enough. modify-Ends _ _ _ (
                  modify-Ends _ _ _ (
                    pure-Ends _ _ _ (
                      put_all w.state.log k _ m.others (record {
                        proposed = λ h. absurd (ground arith);
                        few_prepares = λ _ h. absurd (ground arith);
                        few_commits = λ _ h. absurd (ground arith);
                      })))))

  pub accept_prepare-MayPrepare :
      (now : ℕ) (p : Prepare) (w : PbftConsensus x)
      → All w
      → Ends All (λ _. MayPrepare p.sequence) (accept_prepare x now p w)
  unfolding accept_prepare put_instance
  accept_prepare-MayPrepare now p w h = gets-Ends _ _ _ (
      guard-Ends _ _ _ _ h λ in_view. guard-Ends _ _ _ _ h λ in_range.
        guard-Ends _ _ _ _ h λ signed.
          let k = p.sequence in
          let log = w.state.log in
          let i = get_or_create_instance x now k w.state in
          let lent = Moving-lent x now k w.state h in
          let h1 = put_all log k i (λ j i' _. h.at j i') lent in
          modify-Ends _ _ _ (
            guard-Ends _ _ _ _ h1 λ admits. return_if-Ends _ _ _ h1 λ new_vote. write-Ends _ _ _ (
              put (insert ℕ_discrete k i log) k _ (λ j i' _. h1.at j i')
                (record {
                  proposed = lent.proposed;
                  few_prepares = λ h. absurd (ground arith);
                  few_commits = lent.few_commits;
                }))))

  pub accept_commit-MayCommit :
      (now : ℕ) (c : Commit) (w : PbftConsensus x)
      → All w
      → Ends All (λ _. MayCommit c.sequence) (accept_commit x now c w)
  unfolding accept_commit put_instance
  accept_commit-MayCommit now c w h = gets-Ends _ _ _ (
      guard-Ends _ _ _ _ h λ in_view. guard-Ends _ _ _ _ h λ in_range.
        guard-Ends _ _ _ _ h λ signed.
          let k = c.sequence in
          let log = w.state.log in
          let i = get_or_create_instance x now k w.state in
          let lent = Moving-lent x now k w.state h in
          let h1 = put_all log k i (λ j i' _. h.at j i') lent in
          modify-Ends _ _ _ (
            guard-Ends _ _ _ _ h1 λ admits. return_if-Ends _ _ _ h1 λ new_vote. write-Ends _ _ _ (
              put (insert ℕ_discrete k i log) k _ (λ j i' _. h1.at j i')
                (record {
                  proposed = lent.proposed;
                  few_prepares = lent.few_prepares;
                  few_commits = λ h. absurd (ground arith);
                }))))

  pub accept_pre_prepare-MayPrepare :
      (now : ℕ) (pp : PrePrepare) (w : PbftConsensus x)
      → All w
      → Ends All (λ p. MayPrepare p.sequence) (accept_pre_prepare x now pp w)
  unfolding accept_pre_prepare put_instance
  accept_pre_prepare-MayPrepare now pp w h = gets-Ends _ _ _ (
      guard-Ends _ _ _ _ h λ in_view. unwrap-Ends _ _ _ h λ leader leads.
        guard-Ends _ _ _ _ h λ from_leader. guard-Ends _ _ _ _ h λ in_range.
          guard-Ends _ _ _ _ h λ signed. guard-Ends _ _ _ _ h λ agreed.
            return_if-Ends _ _ _ h λ new. guard-Ends _ _ _ _ h λ right_digest. modify-Ends _ _ _ (
              modify-Ends _ _ _ (
                pure-Ends _ _ _ (
                  put w.state.log pp.sequence _ (λ j i' _. h.at j i')
                    (record {
                      proposed = λ _. (refl, refl);
                      few_prepares = λ h. absurd (ground arith);
                      few_commits = λ _ h. absurd (ground arith);
                    })))))

  pub propose-MayPrepare :
      (now : ℕ) (r : Request) (w : PbftConsensus x)
      → All w
      → Ends All (λ (pp, _). MayPrepare pp.sequence) (propose x now r w)
  unfolding propose put_instance
  propose-MayPrepare now r w h = gets-Ends _ _ _ (
      return_if-Ends _ _ _ h λ new. modify-Ends _ _ _ (
        gets-Ends _ _ _ (
          guard-Ends _ _ _ _ h λ in_range. modify-Ends _ _ _ (
            pure-Ends _ _ _ (
              put w.state.log _ _ (λ j i' _. h.at j i')
                (record {
                  proposed = λ _. (refl, refl);
                  few_prepares = λ h. absurd (ground arith);
                  few_commits = λ _ h. absurd (ground arith);
                }))))))
