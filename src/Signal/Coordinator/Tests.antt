-- ===== src/Signal/Coordinator/Tests.antt =====
-- Runs of the coordinator over `TestPipeline`, and the theorems at them.
use srt_whep.Prelude.{
  ℕ, ◌+◌, String, ◌≡◌, refl, ◌≢◌, ◌⊎◌, none, some, List, [], ◌∷◌, arith, eq_iff, true, length,
}
use srt_whep.Prelude.Results.{err}
use srt_whep.Prelude.HashMap.{lookup, erase, insert, HasUniqueKeys}
use srt_whep.Domain.{SdpOffer, SdpAnswer}
use srt_whep.Stream.TestPipeline
use srt_whep.Stream.Errors
use srt_whep.Signal.Watchdog
use srt_whep.Signal.Watchdog.{record_failure, record_success}
use srt_whep.Signal.Errors.{SignalError, from_pipeline}
use srt_whep.Signal.Messages.{Command, create_connection, offer_received, answer_received, reset}
use srt_whep.Signal.World.{World, world, at_start}
use srt_whep.Signal.Coordinator.Config.{default_config}
use srt_whep.Signal.Coordinator.State.{awaiting_offer, established, Coordinator, init}
use srt_whep.Signal.Coordinator.Connection.{notify, deliver_offer, deliver_answer, deadline}
use srt_whep.Signal.Coordinator.Policy.{policy, deleted}
use srt_whep.Signal.Coordinator.Terminate.{
  notify_all, reset_all, notify_entry, restore_entry, remove_branch_bounded, tear_down,
  feed_watchdog, finish, terminate_entry, terminate,
}
use srt_whep.Signal.Coordinator.Handlers.{
  add_branch_bounded, admit, on_create, offer_to, on_offer, answer_to, on_answer, on_remove,
  expire_all, expired_ids, sweep_expired, reap_branch, reset_signal, handle,
}
use srt_whep.Signal.Coordinator.Loop.{Wakeup, mailbox, sweep_tick, wake, run}
use srt_whep.Signal.Coordinator.Accounts.{parked, sent}
use srt_whep.Signal.Coordinator.Changes.{at, restarts, Moves}
use srt_whep.Signal.Coordinator.Lifecycle
use srt_whep.Signal.Coordinator.Lifecycle.{Spared, Kept, handle-Moves, others-Spared}
use srt_whep.Signal.Coordinator.Sweep.{IsOverdue, SomeTrips, sweep_expired_lem}
use srt_whep.Signal.Coordinator.Branches.{fate, agrees}
use srt_whep.Signal.Coordinator.Branches.Runs.{run-init_agrees}
use srt_whep.Signal.Coordinator.Deletion.{Deletion, terminate-deleted}
use srt_whep.Signal.Coordinator.Handshake.{handshake, answered_by}
use srt_whep.Signal.Coordinator.Replies.{received, run-init_balanced, run-reset_answers_all}

-- All that a run computes with.
coordinator : Unit {0}
unfolding init handle on_create admit add_branch_bounded on_offer offer_to deliver_offer on_answer
    answer_to deliver_answer on_remove terminate terminate_entry finish tear_down
    remove_branch_bounded notify_entry restore_entry notify feed_watchdog policy reset_all
    notify_all reset_signal reap_branch sweep_expired expire_all expired_ids deadline run wake
    lookup erase insert record_failure record_success Watchdog.new TestPipeline.add_branch
    TestPipeline.remove_branch TestPipeline.set_ready
coordinator = tt

abbrev offer : SdpOffer
offer = record { sdp = record { text = "v=0 a=sendonly" } }

abbrev answer : SdpAnswer
answer = record { sdp = record { text = "v=0 a=recvonly" } }

abbrev later : ℕ → World
later t = record at_start { clock = t }

-- Two viewers; one finishes its handshake, the other one's whipsink never comes.
abbrev two_viewers : List (World × Wakeup)
two_viewers =
    (later 0, mailbox (some (create_connection "a" 1)))
    ∷ (later 10, mailbox (some (create_connection "b" 2)))
    ∷ (later 20, mailbox (some (offer_received "a" offer 3)))
    ∷ (later 30, mailbox (some (answer_received "a" answer 4)))
    ∷ []

abbrev begun : Coordinator World
begun = init at_start default_config

abbrev viewed : Coordinator World
viewed = run world two_viewers begun

viewed-connections : viewed.connections ≡ ("a", established 30) ∷ ("b", awaiting_offer 2 10010) ∷ []
unfolding coordinator
viewed-connections = refl

abbrev overdue : Coordinator World
overdue = record viewed { env = later 10010 }

-- The sweep ends the handshake that is late and keeps the viewer that watches.
swept : (sweep_expired world overdue).connections ≡ ("a", established 30) ∷ []
unfolding coordinator
swept = refl

run-init_balanced_example :
    HasUniqueKeys viewed.connections
    × ((ch : ℕ) → parked ch viewed.connections + sent ch viewed.log ≡ received ch two_viewers)
run-init_balanced_example = run-init_balanced world at_start default_config two_viewers

run-init_agrees_example : agrees (at "b" viewed) (fate "b" viewed.log) ≡ true
run-init_agrees_example = run-init_agrees world at_start default_config two_viewers refl "b"

run-reset_answers_all_example : (handle world (reset 9) viewed).connections ≡ []
run-reset_answers_all_example =
    (run-reset_answers_all world at_start default_config two_viewers 9).0

handle-Moves_example :
    Moves (at "b" viewed) (at "b" (handle world (offer_received "b" offer 5) viewed))
handle-Moves_example = handle-Moves world (offer_received "b" offer 5) "b" viewed

a_not_b : ◌≢◌ {A = String} "a" "b"
a_not_b = ground (arith, eq_iff "a" "b")

others-Spared_example :
    ((cmd : Command)
      → Lifecycle.subject cmd ≡ some "a"
      → Spared "b" viewed (handle world cmd viewed))
    × Kept "b" viewed (reap_branch world "a" viewed)
others-Spared_example = others-Spared world "a" "b" a_not_b viewed

overdue_keys : HasUniqueKeys overdue.connections
unfolding coordinator
overdue_keys = (refl, (refl, tt))

sweep_expired_lem_example :
    (((j : String)
        → (IsOverdue 10010 (at j overdue) × (at j (sweep_expired world overdue) ≡ none))
          ⊎ ((¬ IsOverdue 10010 (at j overdue))
              × (at j (sweep_expired world overdue) ≡ at j overdue)))
      × (restarts (sweep_expired world overdue).log ≡ restarts overdue.log))
    ⊎ (SomeTrips overdue.watchdog (length (expired_ids 10010 overdue.connections))
        × ((sweep_expired world overdue).connections ≡ [])
        × (restarts (sweep_expired world overdue).log ≡ restarts overdue.log + 1))
sweep_expired_lem_example = sweep_expired_lem world overdue overdue_keys

terminate-deleted_example : Deletion world "a" viewed (terminate world "a" deleted viewed)
terminate-deleted_example = terminate-deleted world "a" viewed

-- The pipeline refuses to detach a branch: the connection stays, and the client may try again.
refusing : Coordinator World
refusing = record viewed {
  env = record at_start {
    pipeline =
        TestPipeline.fail_next_remove_branch (Errors.PipelineError.transient "busy")
          at_start.pipeline;
  };
}

refused_delete :
    ((terminate world "a" deleted refusing).0 ≡ err (SignalError.pipeline_busy "busy"))
    × (at "a" (terminate world "a" deleted refusing).1 ≡ some (established 30))
unfolding coordinator refusing TestPipeline.fail_next_remove_branch from_pipeline
refused_delete = (refl, refl)

-- Three handshakes in a row that expire trip the watchdog.
three_late : List (World × Wakeup)
three_late =
    (later 0, mailbox (some (create_connection "a" 1)))
    ∷ (later 0, mailbox (some (create_connection "b" 2)))
    ∷ (later 0, mailbox (some (create_connection "c" 3)))
    ∷ (later 20, mailbox (some (create_connection "d" 4)))
    ∷ (later 10000, sweep_tick)
    ∷ []

tripped :
    ((run world three_late begun).connections ≡ [])
    × (restarts (run world three_late begun).log ≡ 1)
    × (sent 4 (run world three_late begun).log ≡ 1)
unfolding coordinator three_late
tripped = (refl, refl, refl)

handshake_example :
    at "c" (answered_by world "c" offer answer 5 6 7 viewed (later 40) (later 50))
    ≡ some (established 50)
unfolding coordinator
handshake_example =
    (handshake world "c" offer answer 5 6 7 viewed (later 40) (later 50) refl refl refl refl).2
