-- ===== src/Supervisor/Downtime.antt =====
-- How long src/supervisor.rs keeps the stream down between two runs, and how it ends.
use mathlib.Core.List.{append_assoc}
use mathlib.Core.Path.{subst}
use srt_whep.Prelude.{
  ℕ, zero, suc, ◌+◌, ◌≤◌, sym, Bool, if_intro, List, [], ◌∷◌, ◌++◌, arith, inl, inr, Option, none,
  some, String, Option-cases,
}
use srt_whep.Prelude.Results.{Result, ok, err}
use srt_whep.Signal.Errors.{SignalError}
use srt_whep.Supervisor.{
  Round, Action, Event, run, count_failures, run_pipeline_until_stopped, init_and_run, drain, stop,
  backoff_delay, join, cleanup, initialised, run_spawned, run_stopped, ended, quitted, slept,
  joined_within, aborted_after, cleaned_up, reset_within, request_dropped, shutdown_join_timeout,
  reset_timeout, max_restart_delay,
}

-- The seconds that an action may wait.
abbrev pub waits : Action → ℕ
waits (joined_within d r) = d
waits (aborted_after d) = d
waits (reset_within d r) = d
waits (slept d b) = d
waits a = 0

abbrev pub total : List Action → ℕ
total [] = 0
total (a ∷ t) = waits a + total t

-- From one initialisation to the next the waits add up to no more than this, when as many seconds have
-- been waited already.
abbrev pub Short : ℕ → ℕ → List Action → Type 0
Short most m [] = m ≤ most
Short most m (initialised r ∷ t) = (m ≤ most) × Short most 0 t
Short most m (request_dropped ∷ t) = Short most m t
Short most m (run_spawned ∷ t) = Short most m t
Short most m (run_stopped r ∷ t) = Short most m t
Short most m (ended ∷ t) = Short most m t
Short most m (quitted ∷ t) = Short most m t
Short most m (joined_within d r ∷ t) = Short most (m + d) t
Short most m (aborted_after d ∷ t) = Short most (m + d) t
Short most m (cleaned_up r ∷ t) = Short most m t
Short most m (reset_within d r ∷ t) = Short most (m + d) t
Short most m (slept d b ∷ t) = Short most (m + d) t

backoff_delay-le : (n : ℕ) → backoff_delay n ≤ 30
unfolding backoff_delay
backoff_delay-le zero = omega arith
backoff_delay-le (suc zero) = omega arith
backoff_delay-le (suc (suc k)) = omega arith

drain-Short : (n most m : ℕ) (t : List Action) → Short most m t → Short most m (drain n ++ t)
unfolding drain
drain-Short zero most m t h = h
drain-Short (suc n) most m t h = drain-Short n most m t h

join-Short :
    (j : Option (Result (Result (Unit {0}) String) String)) (most : ℕ) (t : List Action)
    → Short most 5 t
    → Short most 0 (join j ++ t)
unfolding join
join-Short none most t h = h
join-Short (some r) most t h = h

module _ (is_shut_down : Bool) (stale : ℕ) (j : Option (Result (Result (Unit {0}) String) String))
    (cl : Result (Unit {0}) String) (rs : Option (Result (Unit {0}) SignalError)) (w : Bool) where
  abbrev round : Result (Unit {0}) String → Event → Round
  round i e = record {
    is_shut_down = is_shut_down;
    stale_requests = stale;
    init = i;
    event = e;
    joined = j;
    clean_up = cl;
    reset = rs;
    is_woken = w;
  }

  init_and_run-Short :
      (i : Result (Unit {0}) String) (e : Event) (m : ℕ) (t : List Action)
      → m ≤ 40
      → ((k : ℕ) → k ≤ 5 → Short 40 k t)
      → Short 40 m ((init_and_run (round i e)).1 ++ t)
  unfolding init_and_run stop
  init_and_run-Short (err x) e m t l h = (l, h 0 (omega arith))
  init_and_run-Short (ok tt) (Event.run_resolved res) m t l h = (l, h 0 (omega arith))
  init_and_run-Short (ok tt) Event.shutdown_requested m t l h =
      (l, join-Short j 40 t (h 5 (omega arith)))
  init_and_run-Short (ok tt) Event.restart_received m t l h =
      (l, join-Short j 40 t (h 5 (omega arith)))

turn-Short :
    (r : Round) (m : ℕ) (t : List Action)
    → m ≤ 40
    → ((k : ℕ) → k ≤ 5 → Short 40 k t)
    → Short 40 m ((run_pipeline_until_stopped r).1 ++ t)
unfolding run_pipeline_until_stopped
turn-Short r m t l h =
    subst (Short 40 m) (sym (append_assoc (drain r.stale_requests) (init_and_run r).1 t)) (
      drain-Short r.stale_requests 40 m _ (
        init_and_run-Short r.is_shut_down r.stale_requests r.joined r.clean_up r.reset r.is_woken
          r.init r.event m t l h))

run-Short_from : (rounds : List Round) (n m : ℕ) → m ≤ 40 → Short 40 m (run n rounds)
unfolding run cleanup
run-Short_from [] n m l = l
run-Short_from (r ∷ rest) n m l = if_intro (Short 40 m) r.is_shut_down l (
    turn-Short r m _ l λ k small.
      elim (Option-cases (count_failures (run_pipeline_until_stopped r).0 n)) [
        | inl last ↦ rw last (omega (arith, small))
        | inr (n', more) ↦
            let e : k + 5 + backoff_delay n' ≤ 40 = omega (arith, small, backoff_delay-le n') in
            rw more (
              if_intro (Short 40 (k + 5 + backoff_delay n')) r.is_woken e
                (run-Short_from rest n' _ e))
      ])

-- Whatever happens in the rounds, the supervisor waits, between two initialisations of the pipeline, for
-- no longer than the limits of the join and of the reset and the longest restart delay together, not
-- counting the time that the calls of the pipeline take.
pub run-Short :
    (rounds : List Round) (n : ℕ)
    → Short (shutdown_join_timeout + reset_timeout + max_restart_delay) 0 (run n rounds)
run-Short rounds n = run-Short_from rounds n 0 (omega arith)
