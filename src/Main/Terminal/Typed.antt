-- ===== src/Main/Terminal/Typed.antt =====
-- src/main.rs, the task of the command line: what it sends to the main loop, and that it does not panic.
use mathlib.Core.List.{append-nil, append_assoc}
use p2p_pbft.Base.{
  ℕ, ◌≡◌, ◌≢◌, refl, subst, List, [], ◌∷◌, ◌++◌, Bool, Bool-cases, inl, inr, true, false, none,
  some, arith, if◌then◌else◌, Bytes,
}
use p2p_pbft.Base.Flow.{◌>>◌, guard, panic, outcome, after}
use p2p_pbft.Base.Flow.Rules.{
  Holds, Keeps, Keeps-after, bind-Holds, seq-Holds, modify-Holds, gets-Holds, branch-Holds,
  unwrap-Holds, pure-Holds,
}
use p2p_pbft.External.{External}
use p2p_pbft.Message.{NodeId, Request}
use p2p_pbft.Pbft.State.{PbftState}
use p2p_pbft.Node.{request_new}
use p2p_pbft.Main.Cli.{
  Text, Command, submit, nothing, submit_usage, status, peers, help, quit, unknown, parse_line,
  cli_request, as_bytes,
}
use p2p_pbft.Main.Terminal.{Terminal, Exit, send_request, run_submit, run_command, cli_loop}
use p2p_pbft.Main.Terminal.Prints.{
  Told, Showable, knows_role, print-Prints, println-Prints, nothing-Prints, run_help-Prints,
  run_status-Prints, run_peers-Prints,
}

abbrev is_quit : Command → Bool
is_quit quit = true
is_quit _ = false

-- What a line asks to be sent.
abbrev pub asked : ℕ → NodeId → Command → List Request
asked millis node_id command = elim (cli_request millis node_id command) [
  | none ↦ []
  | some r ↦ r ∷ []
]

module _ (P : Terminal → Type 0) (debug_str : Text → Bytes) (send_error : Bytes)
    (x : External) where
  send_request-Told :
      (r : Request) (rs : List Request) (t : Terminal)
      → Told rs t
      → Holds P (λ _. Told (rs ++ r ∷ [])) (send_request r t)
  unfolding send_request
  send_request-Told r rs t h = gets-Holds _ _ t (
      modify-Holds _ _ t (
        pure-Holds Exit t.receiving _
          (record { requests = ground (arith, h.receives, h.requests); receives = h.receives })))

  -- The request of a submit line is sent, once.
  run_submit-Told :
      (millis : ℕ) (node_id : NodeId) (s : PbftState x) (operation : Text) (rs : List Request)
      (t : Terminal)
      → Showable x s
      → Told rs t
      → Holds P
          (λ _. Told (rs ++ request_new millis node_id (as_bytes operation) ∷ []))
          (run_submit x debug_str send_error millis node_id s operation t)
  unfolding run_submit
  run_submit-Told millis node_id s operation rs t fits h =
      unwrap-Holds _ _ t (knows_role x s fits) (λ leads found_role.
        seq-Holds {Q = λ _. Told rs} _ _ t
          (branch-Holds leads _ _ t (λ yes_leads. (println-Prints P rs _).runs t h)
            (λ no_leads. (println-Prints P rs _).runs t h))
          (λ u g.
            bind-Holds {Q = λ _. Told (rs ++ request_new millis node_id (as_bytes operation) ∷ [])}
              _ _ u (send_request-Told _ rs u g)
              (λ received v f.
                branch-Holds received _ _ v (λ yes_sent. (println-Prints P _ _).runs v f)
                  (λ no_sent. (println-Prints P _ _).runs v f))))

  run_command-Told :
      (millis : ℕ) (node_id : NodeId) (s : PbftState x) (command : Command) (rs : List Request)
      (t : Terminal)
      → Showable x s
      → Told rs t
      → is_quit command ≡ false
      → Holds P
          (λ _. Told (rs ++ asked millis node_id command))
          (run_command x debug_str send_error millis node_id s command t)
  unfolding run_command cli_request
  run_command-Told millis node_id s (submit operation) rs t fits h goes_on =
      run_submit-Told millis node_id s operation rs t fits h
  run_command-Told millis node_id s quit rs t fits h goes_on = absurd (cc)
  run_command-Told millis node_id s nothing rs t fits h goes_on =
      rw (append-nil rs) ((nothing-Prints P rs).runs t h)
  run_command-Told millis node_id s submit_usage rs t fits h goes_on =
      rw (append-nil rs) ((println-Prints P rs _).runs t h)
  run_command-Told millis node_id s status rs t fits h goes_on =
      rw (append-nil rs) ((run_status-Prints P rs x s fits).runs t h)
  run_command-Told millis node_id s peers rs t fits h goes_on =
      rw (append-nil rs) ((run_peers-Prints P rs x s fits).runs t h)
  run_command-Told millis node_id s help rs t fits h goes_on =
      rw (append-nil rs) ((run_help-Prints P rs).runs t h)
  run_command-Told millis node_id s unknown rs t fits h goes_on =
      rw (append-nil rs) ((println-Prints P rs _).runs t h)

  quits :
      {R : Unit {0} → Terminal → Type 0} (millis : ℕ) (node_id : NodeId) (s : PbftState x)
      (command : Command) (rs : List Request) (t : Terminal)
      → Told rs t
      → is_quit command ≡ true
      → ((u : Terminal) → Told rs u → P u)
      → Holds P R (run_command x debug_str send_error millis node_id s command t)
  unfolding run_command guard
  quits millis node_id s quit rs t h ends told =
      seq-Holds {Q = λ _. Told rs} _ _ t ((println-Prints P rs _).runs t h)
        (λ u g. record { meets = told u g })
  quits millis node_id s _ rs t h ends told = absurd (cc)

-- The requests of the submit lines before the first line that quits, in order.
abbrev pub asked_by : {x : External} → NodeId → List (ℕ × PbftState x × Text) → List Request
asked_by node_id [] = []
asked_by node_id ((millis, s, line) ∷ typed) =
    let rest = asked_by node_id typed in
    if is_quit (parse_line line) then [] else asked millis node_id (parse_line line) ++ rest

abbrev pub AllShowable : (x : External) → List (ℕ × PbftState x × Text) → Type 0
AllShowable x [] = Unit {0}
AllShowable x ((millis, s, line) ∷ typed) = Showable x s × AllShowable x typed

module _ (debug_str : Text → Bytes) (send_error : Bytes) (x : External) (node_id : NodeId) where
  cli_loop-Told :
      (typed : List (ℕ × PbftState x × Text)) (rs : List Request) (t : Terminal)
      → AllShowable x typed
      → Told rs t
      → Keeps
          (Told (rs ++ asked_by node_id typed))
          (cli_loop x debug_str send_error node_id typed t)
  unfolding cli_loop
  cli_loop-Told [] rs t all h = rw (append-nil rs) (pure-Holds Exit tt t h)
  cli_loop-Told ((millis, s, line) ∷ typed) rs t (fits, all) h =
      let command = parse_line line in
      let later = asked_by node_id typed in
      let requests = rs ++ asked_by node_id ((millis, s, line) ∷ typed) in
      seq-Holds {Q = λ _. Told rs} _ _ t ((print-Prints (Told requests) rs _).runs t h) (λ u g.
        elim (Bool-cases (is_quit command)) [
          | inl ends ↦
              let no_more : rs ≡ requests = rw (ends, append-nil rs) refl in
              seq-Holds {Q = λ _ _. ⊥} _ _ u
                (quits (Told requests) debug_str send_error x millis node_id s command rs u g ends
                  (λ v k. subst (λ l. Told l v) no_more k))
                (λ v f. absurd f)
          | inr goes_on ↦
              let sent = rs ++ asked millis node_id command in
              let in_order : sent ++ later ≡ requests = rw (goes_on) (append_assoc rs _ later) in
              subst
                (λ l. Keeps (Told l) (
                  (run_command x debug_str send_error millis node_id s command
                      >> cli_loop x debug_str send_error node_id typed)
                    u))
                in_order
                (seq-Holds {Q = λ _. Told sent} _ _ u
                  (run_command-Told (Told (sent ++ later)) debug_str send_error x millis node_id s
                    command rs u fits g goes_on)
                  (λ v f. cli_loop-Told typed sent v all f))
        ])

  -- If the ids that it lists can be sliced and there are replicas, then whatever lines are typed and
  -- whatever the state is at each of them, the task of the command line does not panic, and while the
  -- main loop receives, it sends the requests of the submit lines before the first line that quits, in
  -- order, and nothing else.
  pub cli_loop-Requests :
      (typed : List (ℕ × PbftState x × Text)) (t : Terminal)
      → AllShowable x typed
      → t.receiving ≡ true
      → let u = cli_loop x debug_str send_error node_id typed t in
        (outcome u ≢ panic) × ((after u).sent ≡ t.sent ++ asked_by node_id typed)
  cli_loop-Requests typed t all receives =
      let (told, no_panic) =
        Keeps-after _
          (cli_loop-Told typed t.sent t all (record { requests = refl; receives = receives })) in
      (no_panic, told.requests)
