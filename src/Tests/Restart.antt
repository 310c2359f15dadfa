-- ===== src/Tests/Restart.antt =====
-- src/supervisor.rs in the situations of its own tests.
use srt_whep.Prelude.{false, none, some, ◌≡◌, refl, List, [], ◌∷◌}
use srt_whep.Prelude.Results.{ok, err}
use srt_whep.Supervisor.{
  Round, Event, run_resolved, shutdown_requested, restart_received, run, backoff_delay, initialised,
  run_spawned, run_stopped, ended, quitted, aborted_after, cleaned_up, reset_within, slept,
  run_pipeline_until_stopped, init_and_run, drain, stop, join, flatten_join, cleanup,
  count_failures,
}
use srt_whep.Supervisor.Backoff.{Delays, run-Delays}
use srt_whep.Supervisor.Order.{Ends, run-Ends}
use srt_whep.Supervisor.Downtime.{Short, run-Short}
use srt_whep.Supervisor.Shutdown.{Prompt, at_run, run-ends}

-- A round in which the run resolves by an event; the run is wedged, the reset works.
abbrev round : Event → Round
round e = record {
  is_shut_down = false;
  stale_requests = 0;
  init = ok tt;
  event = e;
  joined = none;
  clean_up = ok tt;
  reset = some (ok tt);
  is_woken = false;
}

abbrev rounds : List Round
rounds =
    round (run_resolved (ok (err "demux vanished")))
    ∷ round (run_resolved (err "panicked"))
    ∷ round restart_received
    ∷ round shutdown_requested
    ∷ round shutdown_requested
    ∷ []

delays :
    (backoff_delay 0 ≡ 1)
    × (backoff_delay 1 ≡ 1)
    × (backoff_delay 2 ≡ 2)
    × (backoff_delay 5 ≡ 16)
    × (backoff_delay 6 ≡ 30)
    × (backoff_delay 30 ≡ 30)
unfolding backoff_delay
delays = (refl, refl, refl, refl, refl, refl)

-- Two failures, a restart on request, and the shutdown, after which nothing follows.
trace :
    run 0 rounds
    ≡ initialised (ok tt)
      ∷ run_spawned
      ∷ run_stopped (err "demux vanished")
      ∷ cleaned_up (ok tt)
      ∷ reset_within 5 (some (ok tt))
      ∷ slept 1 false
      ∷ initialised (ok tt)
      ∷ run_spawned
      ∷ run_stopped (err "panicked")
      ∷ cleaned_up (ok tt)
      ∷ reset_within 5 (some (ok tt))
      ∷ slept 2 false
      ∷ initialised (ok tt)
      ∷ run_spawned
      ∷ quitted
      ∷ aborted_after 5
      ∷ cleaned_up (ok tt)
      ∷ reset_within 5 (some (ok tt))
      ∷ slept 1 false
      ∷ initialised (ok tt)
      ∷ run_spawned
      ∷ ended
      ∷ aborted_after 5
      ∷ cleaned_up (ok tt)
      ∷ reset_within 5 (some (ok tt))
      ∷ []
unfolding run run_pipeline_until_stopped init_and_run drain stop join flatten_join cleanup
    count_failures backoff_delay
trace = refl

run-Delays_example : Delays 0 (run 0 rounds)
run-Delays_example = run-Delays rounds

run-Ends_example : Ends (run 0 rounds)
run-Ends_example = run-Ends rounds 0

run-Short_example : Short 40 0 (run 0 rounds)
run-Short_example = run-Short rounds 0

run-ends_example :
    (run 0 (round (run_resolved (ok (ok tt))) ∷ round shutdown_requested ∷ rounds)
      ≡ run 0 (round (run_resolved (ok (ok tt))) ∷ round shutdown_requested ∷ []))
    × Prompt 10 (run 0 (round (run_resolved (ok (ok tt))) ∷ round shutdown_requested ∷ rounds))
run-ends_example =
    run-ends (round (run_resolved (ok (ok tt))) ∷ []) rounds (round shutdown_requested) 0
      (at_run refl refl)
