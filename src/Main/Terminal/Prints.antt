-- ===== src/Main/Terminal/Prints.antt =====
-- src/main.rs, the task of the command line: the commands that only print.
use p2p_pbft.Base.{
  ℕ, zero, suc, ◌%◌, ◌<◌, ◌≡◌, ◌≢◌, subst, List, [], ◌∷◌, Bool, true, false, Option, none, some,
  arith, length, get_elem?, get_elem?_total, Bytes,
}
use p2p_pbft.Base.Flow.{◌>>=◌, ◌>>◌, pure, modify, panic_if, unwrap}
use p2p_pbft.Base.Flow.Rules.{Holds, seq-Holds, panic_if-Holds, unwrap-Holds, pure-Holds}
use p2p_pbft.External.{External}
use p2p_pbft.Message.{NodeId, Request}
use p2p_pbft.Network.Connect.{slice_panics}
use p2p_pbft.Pbft.State.{PbftState, is_primary, primary, replica_for}
use p2p_pbft.Main.{listing_panics}
use p2p_pbft.Main.Terminal.{
  Terminal, Exit, Cli, print, println, run_status, replica_line, replica_lines, run_peers, run_help,
}

-- The main loop still receives requests, and has been sent these.
pub record Told (rs : List Request) (t : Terminal) : Type 0 where
  pub requests : t.sent ≡ rs
  pub receives : t.receiving ≡ true

-- A node's own id and those of its replicas can be sliced, and it has replicas.
pub record Showable (x : External) (s : PbftState x) : Type 0 where
  pub own : slice_panics s.node_id ≡ false
  pub has_replicas : 0 < length s.replicas
  pub others : listing_panics x s.replicas ≡ false

-- One of the replicas that are listed.
listed-false :
    (x : External) (ids : List NodeId) (i : ℕ) (id : NodeId)
    → listing_panics x ids ≡ false
    → get_elem? ids i ≡ some id
    → slice_panics id ≡ false
listed-false x [] i id fine h = absurd (cc)
listed-false x (r ∷ rs) zero id fine h = ground arith
listed-false x (r ∷ rs) (suc i) id fine h = listed-false x rs i id (ground arith) h

first_listed :
    (x : External) (r : NodeId) (ids : List NodeId)
    → listing_panics x (r ∷ ids) ≡ false
    → slice_panics r ≡ false
first_listed x r ids fine = ground arith

rest_listed :
    (x : External) (r : NodeId) (ids : List NodeId)
    → listing_panics x (r ∷ ids) ≡ false
    → listing_panics x ids ≡ false
rest_listed x r ids fine = ground arith

module _ (x : External) (s : PbftState x) (fits : Showable x s) where
  leader_of : (leader : NodeId) × (primary x s ≡ some leader) × (slice_panics leader ≡ false)
  unfolding primary replica_for
  leader_of =
      let (leader, leads) =
        get_elem?_total s.replicas (s.view % length s.replicas)
          (grind (arith, fits.has_replicas)) in
      (leader, leads, listed-false x s.replicas _ leader fits.others leads)

  has_leader : primary x s ≢ none
  has_leader none_leads = let (leader, leads, _) = leader_of in cc

  pub knows_role : is_primary x s ≢ none
  unfolding is_primary
  knows_role unknown_role = let (leader, leads, _) = leader_of in cc

  leader-short : (leader : NodeId) → primary x s ≡ some leader → slice_panics leader ≡ false
  leader-short leader leads =
      let (id, leads', fine) = leader_of in
      (let same_id : id ≡ leader = cc in
        subst (λ (a : NodeId). slice_panics a ≡ false) same_id fine)

module _ (P : Terminal → Type 0) (rs : List Request) where
  -- The code neither sends nor leaves early.
  pub record Prints (m : Cli (Unit {0})) : Type 0 where
    pub runs : (t : Terminal) → Told rs t → Holds P (λ _. Told rs) (m t)

  pub print-Prints : (b : Bytes) → Prints (print b)
  unfolding print modify
  print-Prints b = record {
    runs = λ t h. record { meets = record { requests = h.requests; receives = h.receives } };
  }

  pub println-Prints : (b : Bytes) → Prints (println b)
  unfolding println
  println-Prints b = print-Prints _

  pub nothing-Prints : Prints (pure tt)
  nothing-Prints = record { runs = λ t h. pure-Holds Exit tt t h }

  seq-Prints : (m k : Cli (Unit {0})) → Prints m → Prints k → Prints (m >> k)
  seq-Prints m k hm hk = record { runs = λ t h. seq-Holds m k t (hm.runs t h) hk.runs }

  panic_if-Prints :
      (b : Bool) (k : Cli (Unit {0})) → b ≡ false → Prints k → Prints (panic_if b >> k)
  panic_if-Prints b k fine hk = record { runs = λ t h. panic_if-Holds b k t fine (hk.runs t h) }

  unwrap-Prints :
      {A : Type 0} (o : Option A) (k : A → Cli (Unit {0}))
      → o ≢ none
      → ((a : A) → o ≡ some a → Prints (k a))
      → Prints (unwrap o >>= k)
  unwrap-Prints o k has hk = record {
    runs = λ t h. unwrap-Holds o k t has (λ a e. (hk a e).runs t h);
  }

  pub run_help-Prints : Prints run_help
  unfolding run_help
  run_help-Prints = search (println-Prints, seq-Prints) depth 20

  module _ (x : External) (s : PbftState x) (fits : Showable x s) where
    pub run_status-Prints : Prints (run_status x s)
    unfolding run_status
    run_status-Prints = seq-Prints _ _ (println-Prints _) (
        seq-Prints _ _ (println-Prints _) (
          seq-Prints _ _ (println-Prints _) (
            panic_if-Prints _ _ fits.own (
              seq-Prints _ _ (println-Prints _) (
                seq-Prints _ _ (println-Prints _) (
                  seq-Prints _ _ (println-Prints _) (
                    unwrap-Prints _ _ (knows_role x s fits) λ leads found_role.
                      seq-Prints _ _ (println-Prints _) (
                        unwrap-Prints _ _ (has_leader x s fits) λ leader found_leader.
                          panic_if-Prints _ _ (leader-short x s fits leader found_leader)
                            (search (println-Prints, seq-Prints) depth 20)))))))))

    replica_lines-Prints :
        (i : ℕ) (ids : List NodeId)
        → listing_panics x ids ≡ false
        → Prints (replica_lines x s i ids)
    unfolding replica_lines replica_line
    replica_lines-Prints i [] fine = nothing-Prints
    replica_lines-Prints i (r ∷ ids) fine =
        seq-Prints _ _
          (unwrap-Prints _ _ (has_leader x s fits) λ leader found_leader.
            panic_if-Prints _ _ (first_listed x r ids fine) (println-Prints _))
          (replica_lines-Prints (suc i) ids (rest_listed x r ids fine))

    pub run_peers-Prints : Prints (run_peers x s)
    unfolding run_peers
    run_peers-Prints =
        seq-Prints _ _ (println-Prints _) (replica_lines-Prints 0 s.replicas fits.others)
