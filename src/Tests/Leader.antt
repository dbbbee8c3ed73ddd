-- ===== src/Tests/Leader.antt =====
-- A run of a view change at the replica that is to lead, node 1 of four.
use p2p_pbft.Pbft.Timeout.{start_view_change_once}
use p2p_pbft.Base.{List, arith, wrap64, ◌+◌, ◌<◌, true, if◌then◌else◌, ℕ, ◌≡◌, refl, [], ◌∷◌}
use p2p_pbft.Base.Flow.{err, outcome, after}
use p2p_pbft.Message.{
  ViewChange, NewView, Prepare, consensus, request_digest, view_change, new_view,
}
use p2p_pbft.Pbft.Config.{invalid_view}
use p2p_pbft.Pbft.State.{PbftConsensus, broadcast}
use p2p_pbft.Pbft.Signing.{new_view_data}
use p2p_pbft.Pbft.Maintenance.{
  start_view_change, check_timeout, record_message, handle_view_change, collect_view_change,
  lead_new_view, make_new_view,
}
use p2p_pbft.Pbft.Normal.{handle_prepare}
use p2p_pbft.Pbft.Frame.{changes_sent}
use p2p_pbft.Pbft.Signing.{view_change_data}
use p2p_pbft.Pbft.State.{sign}
use p2p_pbft.Pbft.Process.{Input, received, timer, suspicion, process_all}
use p2p_pbft.Pbft.Views.{announcer_stays_behind}
use p2p_pbft.Tests.Sample.{sample, node, signature_of, hello}
use p2p_pbft.Tests.Runs.{engine, backup}

abbrev change : ℕ → ViewChange
change i = record { new_view = 1; replica_id = node i; last_sequence = 0; signature = [] }

-- Two of the three view changes have come.
abbrev waiting : PbftConsensus sample
waiting =
    process_all sample
      ((1, received (view_change (change 2))) ∷ (2, received (view_change (change 3))) ∷ []) backup

abbrev announced : NewView
announced = record {
  new_view = 1;
  view_changes = change 2 ∷ change 3 ∷ change 0 ∷ [];
  primary_id = node 1;
  signature = signature_of 1;
}

third_announces :
    (after (handle_view_change sample (change 0) waiting)).outgoing
    ≡ broadcast (consensus (new_view announced)) ∷ waiting.outgoing
unfolding engine record_message handle_view_change collect_view_change lead_new_view make_new_view
    new_view_data
third_announces = refl

abbrev vote : Prepare
vote = record {
  view = 1;
  sequence = 1;
  digest = request_digest sample hello;
  replica_id = node 2;
  signature = signature_of 2;
}

announcer_stays_behind_example :
    let u = after (handle_view_change sample (change 0) waiting) in
    (u.state.view ≡ waiting.state.view)
    × (u.state.view < announced.new_view)
    × (outcome (handle_prepare sample 9 vote u) ≡ err invalid_view)
announcer_stays_behind_example =
    announcer_stays_behind sample (change 0) announced waiting 9 vote third_announces refl

-- A view change, an old new view, a look at the clock and a suspicion.
abbrev meanwhile : List (ℕ × Input)
meanwhile =
    (1, received (view_change (change 0)))
    ∷ (
      2,
      received (
          new_view
            (record { new_view = 0; view_changes = []; primary_id = node 0; signature = [] })),
    )
    ∷ (30_000_000_000, timer)
    ∷ (31_000_000_000, suspicion)
    ∷ []

start_view_change_once_example :
    let u = process_all sample meanwhile (after (start_view_change sample backup)) in
    (changes_sent u.outgoing ≡ (
      if backup.state.view_changing
      then changes_sent backup.outgoing
      else record {
        new_view = wrap64 (backup.state.view + 1);
        replica_id = node 1;
        last_sequence = backup.state.sequence;
        signature = sign sample backup.state (view_change_data (wrap64 (backup.state.view + 1)));
      }
        ∷ changes_sent backup.outgoing))
    × (u.state.view ≡ backup.state.view)
    × (u.state.view_changing ≡ true)
    × (after (start_view_change sample u) ≡ u)
    × (after (check_timeout sample 20_000_000_000 u) ≡ u)
unfolding engine
start_view_change_once_example =
    start_view_change_once sample backup meanwhile 20_000_000_000
      (tt, (omega arith, (tt, (tt, tt))))
