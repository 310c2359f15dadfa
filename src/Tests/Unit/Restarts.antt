-- ===== src/Tests/Unit/Restarts.antt =====
-- The unit tests of src/supervisor.rs: what its actions are when a run fails, ends, is restarted or is shut
-- down. Where a test waits for the pipeline to have been called, the actions so far are counted.
use srt_whep.Prelude.{ℕ, ◌+◌, Bool, true, false, ◌≡◌, refl, none, some, List, [], ◌∷◌}
use srt_whep.Prelude.Results.{ok, err}
use srt_whep.Supervisor.{
  Round, Event, run_resolved, shutdown_requested, restart_received, Action, run, backoff_delay,
  initialised, run_spawned, ended, quitted, cleaned_up, reset_within, slept,
  run_pipeline_until_stopped, init_and_run, drain, stop, join, flatten_join, cleanup,
  count_failures,
}

-- A round with this event; the run can be joined, and the clean-up and the reset work.
abbrev round : Event → Round
round e = record {
  is_shut_down = false;
  stale_requests = 0;
  init = ok tt;
  event = e;
  joined = some (ok (ok tt));
  clean_up = ok tt;
  reset = some (ok tt);
  is_woken = false;
}

abbrev failed : Round
failed = round (run_resolved (ok (err "gst blew up")))

abbrev finished : Round
finished = round (run_resolved (ok (ok tt)))

abbrev requested : Round
requested = round restart_received

abbrev shut_down : Round
shut_down = round shutdown_requested

-- The actions of one kind in a trace.
abbrev count : (Action → Bool) → List Action → ℕ
count p [] = 0
count p (a ∷ t) = elim (p a) [ true ↦ 1 + count p t | false ↦ count p t ]

abbrev is_init : Action → Bool
is_init (initialised r) = true
is_init a = false

abbrev is_run : Action → Bool
is_run run_spawned = true
is_run a = false

abbrev is_end : Action → Bool
is_end ended = true
is_end a = false

abbrev is_quit : Action → Bool
is_quit quitted = true
is_quit a = false

abbrev is_cleanup : Action → Bool
is_cleanup (cleaned_up r) = true
is_cleanup a = false

abbrev is_reset : Action → Bool
is_reset (reset_within d r) = true
is_reset a = false

abbrev sleeps : List Action → List ℕ
sleeps [] = []
sleeps (slept d b ∷ t) = d ∷ sleeps t
sleeps (a ∷ t) = sleeps t

abbrev RestartsAfterAFailedRun : Type 0
RestartsAfterAFailedRun =
    (count is_cleanup (run 0 (failed ∷ [])) ≡ 1)
    × (count is_run (run 0 (failed ∷ finished ∷ [])) ≡ 2)
    × (count is_init (run 0 (failed ∷ finished ∷ [])) ≡ 2)

abbrev ResetIsRequestedAfterEveryStop : Type 0
ResetIsRequestedAfterEveryStop =
    (count is_reset (run 0 (failed ∷ [])) ≡ 1)
    × (count is_reset (run 0 (failed ∷ finished ∷ [])) ≡ 2)
    × (count is_reset (run 0 (failed ∷ finished ∷ requested ∷ [])) ≡ 3)
    × (count is_reset (run 0 (failed ∷ finished ∷ requested ∷ shut_down ∷ [])) ≡ 4)

-- The reset never answers, so that its limit fires.
abbrev wedged : Round
wedged = record failed { reset = none }

abbrev AWedgedResetDoesNotHangTheRestartLoop : Type 0
AWedgedResetDoesNotHangTheRestartLoop =
    (count is_reset (run 0 (wedged ∷ [])) ≡ 1) × (count is_run (run 0 (wedged ∷ wedged ∷ [])) ≡ 2)

abbrev ShutdownSendsEosJoinsAndStopsTheLoop : Type 0
ShutdownSendsEosJoinsAndStopsTheLoop =
    let t = run 0 (shut_down ∷ finished ∷ []) in
    (count is_end t ≡ 1) × (count is_cleanup t ≡ 1) × (count is_run t ≡ 1)

-- A sender that is dropped resolves the wait as the request does.
abbrev DroppedShutdownSenderAlsoStopsTheLoop : Type 0
DroppedShutdownSenderAlsoStopsTheLoop = count is_cleanup (run 0 (shut_down ∷ finished ∷ [])) ≡ 1

abbrev RestartRequestRestartsLikeACleanRun : Type 0
RestartRequestRestartsLikeACleanRun =
    (count is_quit (run 0 (requested ∷ [])) ≡ 1)
    × (count is_cleanup (run 0 (requested ∷ [])) ≡ 1)
    × (count is_run (run 0 (requested ∷ finished ∷ [])) ≡ 2)

abbrev BackoffDoublesOnConsecutiveFailuresAndResetsOnSuccess : Type 0
BackoffDoublesOnConsecutiveFailuresAndResetsOnSuccess =
    sleeps (run 0 (failed ∷ failed ∷ finished ∷ [])) ≡ 1 ∷ 2 ∷ 1 ∷ []

computes : Unit {0}
unfolding run run_pipeline_until_stopped init_and_run drain stop join flatten_join cleanup
    count_failures backoff_delay
computes = tt

restarts : RestartsAfterAFailedRun × ResetIsRequestedAfterEveryStop
unfolding computes
restarts = ((refl, refl, refl), (refl, refl, refl, refl))

bounded_reset : AWedgedResetDoesNotHangTheRestartLoop
unfolding computes
bounded_reset = (refl, refl)

shutdown : ShutdownSendsEosJoinsAndStopsTheLoop × DroppedShutdownSenderAlsoStopsTheLoop
unfolding computes
shutdown = ((refl, refl, refl), refl)

on_request : RestartRequestRestartsLikeACleanRun
unfolding computes
on_request = (refl, refl, refl)

backoff : BackoffDoublesOnConsecutiveFailuresAndResetsOnSuccess
unfolding computes
backoff = refl
